-- ===== src/Eval/SelfParent.antt =====
-- A binding form one of whose elements is the scope that it builds.
use bass.Prelude.{ℕ, ◌<◌, ◌≡◌, ap, ◌∙◌, Text, none, [], ◌∷◌, ◌++◌, length}
use bass.Value.{scope, none_left, more, Addr}
use bass.Value.Decode.{decode, decode_scope, decode_symbol}
use bass.Scope.Heap.{deref, find, overflow, get}
use bass.Scope.Deref.{deref-set_elem_self}
use bass.Scope.Acyclic.{get-self_parent}
use bass.Eval.Task.{Store, build}
use bass.Eval.Scopes.{set_parents, add_parent}
use bass.Eval.Step.{start, start_build}
use bass.Eval.Trampoline.{value, Runs, answers, tails}

-- A form of which the only value is the scope that is being built (as in `{((op [] s s))}`, whose
-- operative returns its caller's scope) builds a scope that is its own parent: from then on `Get` of a
-- symbol that the scope does not bind recurs without end. The scope is in the heap, and has no parent
-- before, as the evaluation of such a form leaves it.
pub build-self_parent :
    (n : ℕ) (a : Addr) (k : Text) (st : Store)
    → a < length st.heap
    → (deref st.heap a).parents ≡ []
    → find k (deref st.heap a).bindings ≡ none
    → Runs
        (start (build (more (scope a) none_left) a) st)
        (value (scope a) (record st { heap = add_parent a a st.heap }))
      × (get n (add_parent a a st.heap) a k ≡ overflow)
unfolding start start_build decode_symbol decode_scope decode
build-self_parent n a k st p top unbound =
    let same =
      deref-set_elem_self st.heap a
        (record (deref st.heap a) { parents = (deref st.heap a).parents ++ a ∷ [] }) p in
    (
      tails (build none_left a) (record st { heap = add_parent a a st.heap }) _
          (answers (scope a) (record st { heap = add_parent a a st.heap })),
      unfold add_parent set_parents in
          get-self_parent n _ a [] k (ap (λ s. s.parents) same ∙ ap (λ ps. ps ++ a ∷ []) top)
            (ap (λ s. find k s.bindings) same ∙ unbound),
    )
