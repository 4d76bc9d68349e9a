-- ===== src/Scope/Examples.antt =====
-- Searches in a small heap.
use bass.Prelude.{
  ok, err, ℕ, zero, suc, ◌<◌, ◌≡◌, refl, Text, text_eq, true, some, List, [], ◌∷◌, length, arith,
}
use bass.Value.{Value, symbol, bool, null, extend_path, Addr}
use bass.Scope.Heap.{Bindings, Heap, deref, find, new_scope, first_found, get}
use bass.Scope.Each.{contains, visit_key, fold_some, each_shadow, each, set_all, copy}
use bass.Scope.Visit.{HasDistinctKeys, IsOrdered, value_of}
use bass.Scope.Order.{ancestors, search_scopes}
use bass.Scope.Acyclic.{IsRanked, get_total}
use bass.Scope.Listing.{each-eq-get}
use bass.Scope.Assoc.{
  not_a_symbol, not_a_value, scope_to_list, assoc, assoc_pairs, first_of, get-assoc,
}
use bass.Value.Decode.{decode, decode_symbol}
use bass.Scope.Copy.{found_or_missing, get-copy}

abbrev x_name : Text
x_name = 120 ∷ []

abbrev y_name : Text
y_name = 121 ∷ []

abbrev first_byte : Text → ℕ
first_byte [] = 0
first_byte (b ∷ t) = b

-- A parent that binds x, and a child that binds y.
abbrev two_scopes : Heap
two_scopes =
    record { parents = []; bindings = (x_name, bool true) ∷ []; order = x_name ∷ [] }
    ∷ record { parents = 0 ∷ []; bindings = (y_name, null) ∷ []; order = y_name ∷ [] }
    ∷ []

two_scopes-IsOrdered : IsOrdered two_scopes
unfolding deref find contains
two_scopes-IsOrdered zero k v e = ground arith
two_scopes-IsOrdered (suc zero) k v e = ground arith
two_scopes-IsOrdered (suc (suc a)) k v e = ground arith

-- A scope whose parent is younger, as that of {{:x true} :y null} is.
abbrev younger_parent : Heap
younger_parent =
    record { parents = 1 ∷ []; bindings = (y_name, null) ∷ []; order = y_name ∷ [] }
    ∷ record { parents = []; bindings = (x_name, bool true) ∷ []; order = x_name ∷ [] }
    ∷ []

abbrev rank_of : Addr → ℕ
rank_of zero = 1
rank_of (suc a) = 0

younger_parent-IsRanked : IsRanked rank_of younger_parent
unfolding deref
younger_parent-IsRanked zero = (omega arith, tt)
younger_parent-IsRanked (suc zero) = tt
younger_parent-IsRanked (suc (suc a)) = tt

get_total_example :
    (chain : List Addr) × (ancestors 2 younger_parent 0 ≡ some chain)
    × (get 2 younger_parent 0 x_name ≡ search_scopes younger_parent chain x_name)
get_total_example =
    get_total 2 rank_of younger_parent 0 x_name younger_parent-IsRanked (omega arith)

abbrev listing : Bindings
listing = (x_name, bool true) ∷ (y_name, null) ∷ []

each-eq-get_example :
    HasDistinctKeys listing × ((k : Text) → find k listing ≡ value_of (get 2 two_scopes 1 k))
unfolding each each_shadow deref contains find fold_some visit_key get first_found text_eq
each-eq-get_example = each-eq-get 2 two_scopes 1 listing two_scopes-IsOrdered refl

abbrev with_copy : Heap
with_copy = set_all 2 listing (new_scope [] two_scopes).0

get-copy_example :
    ((k : Text) → get 1 with_copy 2 k ≡ found_or_missing (value_of (get 2 two_scopes 1 k)))
    × (2 ≡ length two_scopes)
    × ((b : Addr) → b < length two_scopes → deref with_copy b ≡ deref two_scopes b)
unfolding copy each each_shadow deref contains find fold_some visit_key get first_found text_eq
    new_scope
get-copy_example = get-copy 2 0 two_scopes with_copy 1 2 two_scopes-IsOrdered refl

-- The child's scope with the list of the parent's bindings.
get-assoc_example :
    (kv : List Value) × (h' : Heap) × (scope_to_list 2 two_scopes 0 ≡ some kv)
    × (assoc 2 1 kv two_scopes ≡ ok (h', length two_scopes))
    × ((k : Text)
        → get 1 h' (length two_scopes) k
          ≡ found_or_missing
              (first_of (value_of (get 2 two_scopes 0 k)) (value_of (get 2 two_scopes 1 k))))
unfolding each each_shadow deref contains find fold_some visit_key get first_found text_eq decode
get-assoc_example =
    get-assoc 2 0 two_scopes 1 0 listing ((x_name, bool true) ∷ []) two_scopes-IsOrdered refl refl
      (refl, tt)

-- A value that does not decode into one.
assoc_not_a_value :
    assoc 2 1 (symbol x_name ∷ extend_path null null ∷ []) two_scopes ≡ err not_a_value
unfolding assoc assoc_pairs copy each each_shadow deref contains find fold_some visit_key get
    first_found text_eq new_scope decode_symbol decode
assoc_not_a_value = refl

-- A key that is no symbol.
assoc_fails : assoc 2 1 (null ∷ null ∷ []) two_scopes ≡ err not_a_symbol
unfolding assoc assoc_pairs copy each each_shadow deref contains find fold_some visit_key get
    first_found text_eq new_scope decode_symbol decode
assoc_fails = refl
