-- ===== src/Memo/Lockfile.antt =====
-- `Lockfile.Store`, `Retrieve` and `Remove` of pkg/bass/memo.go, from reading the file to writing it.
-- Each holds the file lock and the global lock throughout, so that calls follow one another.
use bass.Prelude.{
  Text, text_eq, ◌≡◌, Bool, ◌&&◌, Option, none, some, List, if◌then◌else◌, Result, ok, err, ◌>>=◌,
  >>=-eq-ok, arith,
}
use bass.Memo.Content.{MemoModule, find_memo, store_memos, remove_memos}
use bass.Memo.Results.{IsEquivalence}
use bass.Memo.Store.{find-store_memos}
use bass.Memo.Remove.{find-remove_memos}

-- How `prototext.Unmarshal` fails: with a `gproto.Error`, or otherwise.
pub data Failure : Type 0 where
  malformed other : Failure

-- What a lockfile uses of the packages prototext, txtpbfmt and gproto, and of the conversions of
-- pkg/bass/proto.go. A failing `unmarshal` gives what it had read.
pub record Codec : Type 1 where
  pub Err : Type 0
  pub Thunk : Type 0
  pub Value : Type 0
  pub Msg : Type 0
  pub thunk_proto : Thunk → Result Err Msg
  pub marshal_proto : Value → Result Err Msg
  pub from_proto : Msg → Result Err Value
  pub equal : Msg → Msg → Bool
  pub unmarshal : Text → List (MemoModule Msg) × Option Failure
  pub marshal : List (MemoModule Msg) → Result Err Text
  pub format : Text → Result Err Text
  pub read_error : Err
  pub unmarshal_error : Err

-- Text that was written reads back, and messages are compared by an equivalence.
pub record IsFaithful (c : Codec) : Type 0 where
  pub reads_back :
      (memos : List (MemoModule c.Msg)) (payload formatted : Text)
      → c.marshal memos ≡ ok payload
      → c.format payload ≡ ok formatted
      → c.unmarshal formatted ≡ (memos, none)
  pub equivalence : IsEquivalence c.equal

module _ (c : Codec) where
  open c use {Err, Thunk, Value, Msg}

  -- The file, if it is there.
  abbrev pub File : Type 0
  File = Option Text

  unfoldable pub load : File → Result Err (List (MemoModule Msg))
  load none = err c.read_error
  load (some payload) =
      let (memos, failure) = c.unmarshal payload in
      elim failure [
        | none ↦ ok memos
        | some e ↦ elim e [ malformed ↦ ok memos | other ↦ err c.unmarshal_error ]
      ]

  unfoldable pub save : List (MemoModule Msg) → Result Err File
  save memos = do payload ← c.marshal memos; formatted ← c.format payload; ok (some formatted)

  -- What is returned for the output that was found.
  abbrev pub returned : Option Msg → Result Err (Option Value)
  returned none = ok none
  returned (some output) = c.from_proto output >>= λ val. ok (some val)

  unfoldable pub retrieve_memo :
      List (MemoModule Msg) → Thunk → Text → Value → Result Err (Option Value)
  retrieve_memo memos thunk binding input = do
    tp ← c.thunk_proto thunk
    im ← c.marshal_proto input
    returned (find_memo c.equal tp binding im memos)

  -- The file that is left after a successful call.
  unfoldable pub store : Thunk → Text → Value → Value → File → Result Err File
  store thunk binding input output file = do
    content ← load file
    tp ← c.thunk_proto thunk
    ip ← c.marshal_proto input
    op ← c.marshal_proto output
    save (store_memos c.equal tp binding ip op content)

  unfoldable pub retrieve : Thunk → Text → Value → File → Result Err (Option Value)
  retrieve thunk binding input file = do
    content ← load file
    retrieve_memo content thunk binding input

  unfoldable pub remove : Thunk → Text → Value → File → Result Err File
  remove thunk binding input file = do
    content ← load file
    tp ← c.thunk_proto thunk
    im ← c.marshal_proto input
    save (remove_memos c.equal tp binding im content)

  module _ (faithful : IsFaithful c) where
    load-save :
        (memos : List (MemoModule Msg)) (file : File) → save memos ≡ ok file → load file ≡ ok memos
    unfolding load save
    load-save memos file h =
        let (payload, m, k) = >>=-eq-ok (c.marshal memos) _ h in
        let (formatted, f, g) = >>=-eq-ok (c.format payload) _ k in
        ground (arith, m, f, g, faithful.reads_back memos payload formatted m f)

    retrieve-of_load :
        (thunk : Thunk) (binding : Text) (input : Value) (file : File)
        (content : List (MemoModule Msg)) (tp im : Msg)
        → load file ≡ ok content
        → c.thunk_proto thunk ≡ ok tp
        → c.marshal_proto input ≡ ok im
        → retrieve thunk binding input file ≡ returned (find_memo c.equal tp binding im content)
    unfolding retrieve retrieve_memo
    retrieve-of_load thunk binding input file content tp im l t i = ground arith

    -- After a successful `store`, `retrieve` of the same key gives the stored output (as it comes back
    -- from its message), and `retrieve` of any other key gives what it gave before. Keys are compared
    -- by their messages and the binding's name; all the conversions to messages succeed, and the
    -- written text reads back.
    pub retrieve-store :
        (thunk : Thunk) (binding : Text) (input output : Value) (file file' : File) (thunk' : Thunk)
        (binding' : Text) (input' : Value) (tp ip op sp jp : Msg)
        → c.thunk_proto thunk ≡ ok tp
        → c.marshal_proto input ≡ ok ip
        → c.marshal_proto output ≡ ok op
        → c.thunk_proto thunk' ≡ ok sp
        → c.marshal_proto input' ≡ ok jp
        → store thunk binding input output file ≡ ok file'
        → retrieve thunk' binding' input' file' ≡ (
            if c.equal tp sp && (text_eq binding binding' && c.equal ip jp)
            then (c.from_proto op >>= λ val. ok (some val))
            else retrieve thunk' binding' input' file)
    unfolding store
    retrieve-store thunk binding input output file file' thunk' binding' input' tp ip op sp jp t i o
          s j h =
        let (content, l, k) = >>=-eq-ok (load file) _ h in
        let saved =
          load-save (store_memos c.equal tp binding ip op content) file' (rw (t, i, o) at k) in
        ground (
          arith,
          retrieve-of_load thunk' binding' input' file'
              (store_memos c.equal tp binding ip op content) sp jp saved s j,
          retrieve-of_load thunk' binding' input' file content sp jp l s j,
          find-store_memos c.equal faithful.equivalence tp binding ip op sp binding' jp content,
        )

    -- After a successful `remove`, `retrieve` of the same key finds nothing, and `retrieve` of any
    -- other key gives what it gave before. Keys are compared by their messages and the binding's
    -- name; all the conversions to messages succeed, and the written text reads back.
    pub retrieve-remove :
        (thunk : Thunk) (binding : Text) (input : Value) (file file' : File) (thunk' : Thunk)
        (binding' : Text) (input' : Value) (tp ip sp jp : Msg)
        → c.thunk_proto thunk ≡ ok tp
        → c.marshal_proto input ≡ ok ip
        → c.thunk_proto thunk' ≡ ok sp
        → c.marshal_proto input' ≡ ok jp
        → remove thunk binding input file ≡ ok file'
        → retrieve thunk' binding' input' file' ≡ (
            if c.equal tp sp && (text_eq binding binding' && c.equal ip jp)
            then ok none
            else retrieve thunk' binding' input' file)
    unfolding remove
    retrieve-remove thunk binding input file file' thunk' binding' input' tp ip sp jp t i s j h =
        let (content, l, k) = >>=-eq-ok (load file) _ h in
        let saved = load-save (remove_memos c.equal tp binding ip content) file' (rw (t, i) at k) in
        ground (
          arith,
          retrieve-of_load thunk' binding' input' file' (remove_memos c.equal tp binding ip content)
              sp jp saved s j,
          retrieve-of_load thunk' binding' input' file content sp jp l s j,
          find-remove_memos c.equal faithful.equivalence tp binding ip sp binding' jp content,
        )
