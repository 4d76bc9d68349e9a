-- ===== src/Path/Parsed.antt =====
-- Paths come back from their text (pkg/bass/filesystem_path.go).
use mathlib.Core.Path.{subst}
use mathlib.Core.Option.{some-injective}
use bass.Prelude.{
  ◌≡◌, ℕ, ◌≢◌, refl, sym, ap, ◌∙◌, Text, text_eq, text_eq_iff, has_prefix, true, false, ◌||◌, some,
  [], ◌∷◌, ◌++◌, Bool-cases, inl, inr, split, join, arith,
}
use bass.Proto.HostPaths.{FileOrDirPath, file, dir}
use bass.Path.Clean.{slash, dot, render, push_element, push_elements, clean}
use bass.Path.Idempotent.{clean_idempotent}
use bass.Path.Relative.{true_ne_false}
use bass.Thunk.Plain.{clarify_path}
use bass.Command.Places.{trim_slash, new_dir_path}
use bass.Path.Parse.{ends_slash, parse_nonempty, parse_path, slash_path}
use bass.Path.Slashes.{
  clarify_path_cases, clean-clarify_path, text_eq-clarify_path, ends_slash-clarify_path,
  trim_slash_none, ends_slash-append, clean-slash_end, ends_slash-clean,
}

-- What comes back from the text of a parsed path.
parse-slash_file :
    (p : Text)
    → p ≢ slash ∷ []
    → clean p ≡ p
    → p ≢ []
    → parse_nonempty (slash_path (file p)) ≡ file p
unfolding parse_nonempty slash_path
parse-slash_file [] n c e = absurd (e refl)
parse-slash_file (a ∷ p) n c e =
    let plain =
      ends_slash-clarify_path a p
      ∙ ap ends_slash (sym c)
      ∙ ends_slash-clean (a ∷ p) (λ f. n (sym c ∙ f)) in
    rw (text_eq-clarify_path (a ∷ p), plain) (ap file (clean-clarify_path (a ∷ p) ∙ c))

ends_slash-directory : (p : Text) → ends_slash (clarify_path (p ++ slash ∷ [])) ≡ true
unfolding clarify_path has_prefix ends_slash
ends_slash-directory [] = refl
ends_slash-directory (a ∷ p) =
    ends_slash-clarify_path a (p ++ slash ∷ []) ∙ ends_slash-append (a ∷ p)

parsed_dir :
    (s : Text)
    → (text_eq s dot || ends_slash s) ≡ true
    → parse_nonempty s ≡ dir (record { path = trim_slash (clean s); include = []; exclude = [] })
unfolding parse_nonempty new_dir_path
parsed_dir s e = rw e refl

parsed_file :
    (s : Text) → (text_eq s dot || ends_slash s) ≡ false → parse_nonempty s ≡ file (clean s)
unfolding parse_nonempty
parsed_file s e = rw e refl

not_ending : (s : Text) → (text_eq s dot || ends_slash s) ≡ false → ends_slash s ≢ true
not_ending s e f = ground (arith, e, f)

parse-slash-dir :
    (p : Text)
    → trim_slash (clean (p ++ slash ∷ [])) ≡ p
    → parse_nonempty (slash_path (dir (record { path = p; include = []; exclude = [] })))
      ≡ dir (record { path = p; include = []; exclude = [] })
unfolding parse_nonempty slash_path new_dir_path
parse-slash-dir p h =
    rw (text_eq-clarify_path (p ++ slash ∷ []), ends_slash-directory p)
      (ap (λ q. dir (record { path = q; include = []; exclude = [] }))
        (ap trim_slash (clean-clarify_path (p ++ slash ∷ [])) ∙ h))

dot_nonempty : clean [] ≢ []
unfolding clean render push_elements push_element split text_eq
dot_nonempty f = ground (arith, f)

clean_nonempty : (p : Text) → clean p ≢ []
clean_nonempty p e = dot_nonempty (sym (ap clean e) ∙ clean_idempotent p ∙ e)

clean_slash_lem : (p : Text) → p ≢ [] → clean (p ++ slash ∷ []) ≡ clean p
clean_slash_lem [] ne = absurd (ne refl)
clean_slash_lem (c ∷ p) ne = clean-slash_end c p

root_directory :
    trim_slash (clean (trim_slash (slash ∷ []) ++ slash ∷ [])) ≡ trim_slash (slash ∷ [])
unfolding trim_slash clean render push_elements push_element split join text_eq
root_directory = refl

directory_back :
    (s : Text) → trim_slash (clean (trim_slash (clean s) ++ slash ∷ [])) ≡ trim_slash (clean s)
directory_back s = elim (Bool-cases (text_eq (clean s) (slash ∷ []))) [
  | inl e ↦ rw ((text_eq_iff (clean s) (slash ∷ [])).0 e) root_directory
  | inr e ↦
      let same = trim_slash_none (clean s) (
        ends_slash-clean s
          (λ f. true_ne_false (sym ((text_eq_iff (clean s) (slash ∷ [])).1 f) ∙ e))) in
      ap (λ q. trim_slash (clean (q ++ slash ∷ []))) same
      ∙ ap trim_slash (clean_slash_lem (clean s) (clean_nonempty s) ∙ clean_idempotent s)
]

parsed_again :
    (s : Text)
    → (clean s ≡ slash ∷ [] → ends_slash s ≡ true)
    → parse_nonempty (slash_path (parse_nonempty s)) ≡ parse_nonempty s
parsed_again s h = elim (Bool-cases (text_eq s dot || ends_slash s)) [
  | inl e ↦ rw (parsed_dir s e) (parse-slash-dir (trim_slash (clean s)) (directory_back s))
  | inr e ↦ rw (parsed_file s e) (
      parse-slash_file (clean s) (λ f. not_ending s e (h f)) (clean_idempotent s)
        (clean_nonempty s))
]

parse_some : (c : ℕ) (s : Text) → parse_path (c ∷ s) ≡ some (parse_nonempty (c ∷ s))
unfolding parse_path
parse_some c s = refl

parse_clarified_empty : parse_path (clarify_path []) ≡ some (parse_nonempty (clarify_path []))
unfolding clarify_path parse_path parse_nonempty has_prefix
parse_clarified_empty = refl

parse_clarified : (p : Text) → parse_path (clarify_path p) ≡ some (parse_nonempty (clarify_path p))
parse_clarified [] = parse_clarified_empty
parse_clarified (a ∷ p) = elim (clarify_path_cases (a ∷ p)) [
  | inl e ↦ rw e (parse_some a p)
  | inr (r, e) ↦ rw e (parse_some b'.' _)
]

parse_text : (p : FileOrDirPath) → parse_path (slash_path p) ≡ some (parse_nonempty (slash_path p))
unfolding slash_path
parse_text (file p) = parse_clarified p
parse_text (dir p) = parse_clarified (p.path ++ slash ∷ [])

-- The text of a path that was parsed from a text is parsed as that path, unless the text is one for the
-- root that does not end in a slash, such as `/.`, which is parsed as a file.
pub parse_path-slash_path :
    (s : Text) (p : FileOrDirPath)
    → parse_path s ≡ some p
    → (clean s ≡ slash ∷ [] → ends_slash s ≡ true)
    → parse_path (slash_path p) ≡ some p
unfolding parse_path
parse_path-slash_path [] p e h = ground (arith, e)
parse_path-slash_path (c ∷ s) p e h =
    let same = some-injective (parse_nonempty (c ∷ s)) p e in
    subst (λ q. parse_path (slash_path q) ≡ some q) same
      (parse_text (parse_nonempty (c ∷ s)) ∙ ap some (parsed_again (c ∷ s) h))
