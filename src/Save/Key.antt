-- ===== src/Save/Key.antt =====
-- graph.go: the key of `bySourceLabel` is the text of the source, a colon and the label. If no
-- such text has a colon, equal keys have equal parts.
use Prim.Native.String.append
use Prim.Native.String.{String, [], ◌∷◌, ◌++◌}
use Prim.Native.Char.{Char}
use orchex.Prelude.{◌≡◌, ◌≢◌, sym, ap, ◌∙◌, refl}

abbrev pub colon : Char
colon = ":"

-- The text has no colon.
abbrev pub HasNoColon : String → Type 0
HasNoColon [] = Unit
HasNoColon (c ∷ s) = (c ≢ colon) × HasNoColon s

-- The key for the text `u` and the label `l`, by its characters.
keyed : String → String → String
keyed [] l = colon ∷ l
keyed (c ∷ u) l = c ∷ keyed u l

key-keyed : (u l : String) → ((u ++ ":") ++ l) ≡ keyed u l
unfolding keyed
key-keyed [] l =
    ap (λ s. s ++ l) (append.nil ":") ∙ append.cons colon [] l ∙ ap (λ s. colon ∷ s) (append.nil l)
key-keyed (c ∷ u) l =
    ap (λ s. s ++ l) (append.cons c u ":")
    ∙ append.cons c (u ++ ":") l
    ∙ ap (λ s. c ∷ s) (key-keyed u l)

keyed-parts :
    (u v l m : String) → HasNoColon u → HasNoColon v → keyed u l ≡ keyed v m → (u ≡ v) × (l ≡ m)
unfolding keyed
keyed-parts [] [] l m hu hv e = (refl, cc)
keyed-parts [] (d ∷ v) l m hu hv e = absurd (hv.0 cc)
keyed-parts (c ∷ u) [] l m hu hv e = absurd (hu.0 cc)
keyed-parts (c ∷ u) (d ∷ v) l m hu hv e =
    let (same_u, same_l) = keyed-parts u v l m hu.1 hv.1 cc in (cc, same_l)

pub key_parts :
    (u v l m : String)
    → HasNoColon u
    → HasNoColon v
    → ((u ++ ":") ++ l) ≡ ((v ++ ":") ++ m)
    → (u ≡ v) × (l ≡ m)
key_parts u v l m hu hv e = keyed-parts u v l m hu hv (sym (key-keyed u l) ∙ e ∙ key-keyed v m)
