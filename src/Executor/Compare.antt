-- ===== src/Executor/Compare.antt =====
-- conditional.go: what `evaluateCondition` compares, or why it cannot, and the input that
-- `json.Unmarshal` decodes.
use orchex.Prelude.{
  subst, String, ◌≡◌, ◌≢◌, ◌⊎◌, inl, inr, refl, sym, ◌∙◌, Bool, true, false, List, [], ◌∷◌, Option,
  none, some, Option-cases, if◌then◌else◌,
}
use orchex.Result.{Result, ok, err}
use orchex.Executor.{
  Json, null, text, object, Fields, empty_map, get_field, ExecError, bad_input, bad_literal,
  bad_expression, bad_path, boolean, number, array, follow, decode_map, compare_parts,
}

-- The value at a path: every segment but the end of the path leads into an object.
abbrev pub At : List String → Json → Json → Type 0
At [] value found = value ≡ found
At (segment ∷ path) value found =
    (m : Fields) × (value ≡ object m) × At path (get_field segment m) found

follow-At :
    (path : List String) (value found : Json) → follow path value ≡ some found → At path value found
follow-At [] value found h = cc
follow-At (s ∷ path) null found h = cc
follow-At (s ∷ path) (boolean b) found h = cc
follow-At (s ∷ path) (number t) found h = cc
follow-At (s ∷ path) (text t) found h = cc
follow-At (s ∷ path) (array t) found h = cc
follow-At (s ∷ path) (object m) found h = (m, refl, follow-At path (get_field s m) found h)

follow-none :
    (path : List String) (value : Json)
    → follow path value ≡ none
    → (found : Json) → ¬ At path value found
follow-none [] value h found at = cc
follow-none (s ∷ path) null h found (m, e, at) = cc
follow-none (s ∷ path) (boolean b) h found (m, e, at) = cc
follow-none (s ∷ path) (number t) h found (m, e, at) = cc
follow-none (s ∷ path) (text t) h found (m, e, at) = cc
follow-none (s ∷ path) (array t) h found (m, e, at) = cc
follow-none (s ∷ path) (object m) h found (m', e, at) =
    let same : m' ≡ m = cc in
    follow-none path (get_field s m) h found
      (subst (λ (x : Fields). At path (get_field s x) found) same at)

-- What `json.Unmarshal` makes of the text of an object, or of null.
abbrev pub IsMap : Option Json → Fields → Type 0
IsMap parsed fields =
    (parsed ≡ some (object fields)) ⊎ ((parsed ≡ some null) × (fields ≡ empty_map))

-- Text that is no JSON, or JSON that is neither an object nor null.
abbrev pub IsNoMap : Option Json → Type 0
IsNoMap parsed = (fields : Fields) → ¬ IsMap parsed fields

pub decoded :
    (parsed : Option Json) (fields : Fields) → decode_map parsed ≡ ok fields → IsMap parsed fields
decoded none fields h = cc
decoded (some null) fields h = inr (refl, cc)
decoded (some (boolean b)) fields h = cc
decoded (some (number t)) fields h = cc
decoded (some (text t)) fields h = cc
decoded (some (array t)) fields h = cc
decoded (some (object m)) fields h = inl (cc)

pub undecoded :
    (parsed : Option Json) (e : ExecError)
    → decode_map parsed ≡ err e
    → (e ≡ bad_input) × IsNoMap parsed
undecoded none e h = (cc, λ m is. elim is [ inl a ↦ cc | inr b ↦ cc (b.0) ])
undecoded (some null) e h = cc
undecoded (some (boolean b)) e h = (cc, λ m is. elim is [ inl a ↦ cc | inr b ↦ cc (b.0) ])
undecoded (some (number t)) e h = (cc, λ m is. elim is [ inl a ↦ cc | inr b ↦ cc (b.0) ])
undecoded (some (text t)) e h = (cc, λ m is. elim is [ inl a ↦ cc | inr b ↦ cc (b.0) ])
undecoded (some (array t)) e h = (cc, λ m is. elim is [ inl a ↦ cc | inr b ↦ cc (b.0) ])
undecoded (some (object m)) e h = cc

module _ (decode_config : String → Option String) (parse_json : String → Option Json)
    (marshal : Fields → Option String) (split : String → String → List String)
    (trim_space : String → String) (deep_equal : Json → Json → Bool) where
  -- What the expression compares, and which label is its answer.
  pub record Compares (expression : String) (input : Fields) (label : String) : Type 0 where
    pub left : String
    pub right : String
    pub value : Json
    pub expected : Json
    pub two_parts : split expression "==" ≡ left ∷ right ∷ []
    pub resolved : At (split (trim_space left) ".") (object input) value
    pub read : parse_json (trim_space right) ≡ some expected
    pub equal : deep_equal value expected ≡ true → label ≡ "true"
    pub different : deep_equal value expected ≡ false → label ≡ "false"

  -- Why an expression compares nothing, and the error that says so.
  pub data CannotCompare (expression : String) (input : Fields) (e : ExecError) : Type 0 where
    no_pair :
        ((left right : String) → split expression "==" ≢ left ∷ right ∷ [])
        → e ≡ bad_expression expression
        → CannotCompare expression input e
    no_value :
        (left right : String)
        → split expression "==" ≡ left ∷ right ∷ []
        → ((value : Json) → ¬ At (split (trim_space left) ".") (object input) value)
        → e ≡ bad_path (trim_space left)
        → CannotCompare expression input e
    no_literal :
        (left right : String) (value : Json)
        → split expression "==" ≡ left ∷ right ∷ []
        → At (split (trim_space left) ".") (object input) value
        → parse_json (trim_space right) ≡ none
        → e ≡ bad_literal
        → CannotCompare expression input e

  abbrev pub Judged : String → Fields → Result ExecError String → Type 0
  Judged expression input res =
      ((label : String) × (res ≡ ok label) × Compares expression input label)
      ⊎ ((e : ExecError) × (res ≡ err e) × CannotCompare expression input e)

  pub judged :
      (expression : String) (input : Fields) (parts : List String)
      → split expression "==" ≡ parts
      → Judged expression input (
          compare_parts decode_config parse_json marshal split trim_space deep_equal expression
            input parts)
  judged expression input [] s = inr (_, refl, no_pair (λ l r e. cc (sym s ∙ e)) refl)
  judged expression input (x ∷ []) s = inr (_, refl, no_pair (λ l r e. cc (sym s ∙ e)) refl)
  judged expression input (x ∷ y ∷ z ∷ rest) s =
      inr (_, refl, no_pair (λ l r e. cc (sym s ∙ e)) refl)
  judged expression input (left ∷ right ∷ []) s =
      elim (Option-cases (follow (split (trim_space left) ".") (object input))) [
        | inl lost ↦ inr (
          bad_path (trim_space left),
          rw lost refl,
          no_value left right s (follow-none _ _ lost) refl,
        )
        | inr (value, found) ↦
            let at = follow-At _ _ value found in
            elim (Option-cases (parse_json (trim_space right))) [
              | inl unread ↦ inr (
                bad_literal,
                rw (found, unread) refl,
                no_literal left right value s at unread refl,
              )
              | inr (expected, read) ↦ inl (
                if deep_equal value expected then "true" else "false",
                rw (found, read) refl,
                record {
                  left = left;
                  right = right;
                  value = value;
                  expected = expected;
                  two_parts = s;
                  resolved = at;
                  read = read;
                  equal = λ e. rw e refl;
                  different = λ e. rw e refl;
                },
              )
            ]
      ]
