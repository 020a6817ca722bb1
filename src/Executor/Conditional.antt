-- ===== src/Executor/Conditional.antt =====
-- conditional.go: how a conditional node ends.
use orchex.Prelude.{
  subst, String, ◌≡◌, ◌≢◌, ◌⊎◌, inl, inr, refl, sym, ◌∙◌, Bool, false, List, Option, none, some,
}
use orchex.Result.{Result, ok, err}
use orchex.Worker.{ExecResult}
use orchex.Executor.SetField.{get_field-set_field, get_field-set_field_ne}
use orchex.Executor.{
  Json, null, text, object, Fields, get_field, set_field, ExecError, bad_config, bad_input,
  bad_output, Outcome, executed, refused, boolean, number, array, panicked, decode_map,
  evaluate_condition, marshalled, put_branch, branch_on, on_input, on_config, execute_conditional,
}
use orchex.Executor.Compare.{IsMap, IsNoMap, decoded, undecoded, Compares, CannotCompare, judged}

abbrev pub IsNoObject : Json → Type 0
IsNoObject j = (m : Fields) → j ≢ object m

module _ (decode_config : String → Option String) (parse_json : String → Option Json)
    (marshal : Fields → Option String) (split : String → String → List String)
    (trim_space : String → String) (deep_equal : Json → Json → Bool) where
  -- The result of a conditional node on the decoded input.
  pub record IsBranched (expression : String) (input : Fields) (r : ExecResult) : Type 0 where
    pub compares_parts :
        Compares decode_config parse_json marshal split trim_space deep_equal expression input
          r.next_edge_label
    pub goes_on : r.completed ≡ false
    pub old_data : Fields
    pub has_data : get_field "data" input ≡ object old_data
    pub after : Fields
    pub written : marshal after ≡ some r.output
    pub new_data : Fields
    pub put_data : get_field "data" after ≡ object new_data
    pub branch : get_field "branch" new_data ≡ text r.next_edge_label
    pub same_data : (k : String) → "branch" ≢ k → get_field k new_data ≡ get_field k old_data
    pub same_rest : (k : String) → "data" ≢ k → get_field k after ≡ get_field k input

  on_object :
      (expression : String) (input : Fields) (label : String) (data' : Fields) (r : ExecResult)
      → Compares decode_config parse_json marshal split trim_space deep_equal expression input label
      → get_field "data" input ≡ object data'
      → (out : Option String)
      → marshal (set_field "data" (object (set_field "branch" (text label) data')) input) ≡ out
      → marshalled decode_config parse_json marshal split trim_space deep_equal label out
        ≡ executed r
      → IsBranched expression input r
  on_object expression input label data' r c d none m h = cc
  on_object expression input label data' r c d (some out) m h =
      let same : record { output = out; next_edge_label = label; completed = false } ≡ r = cc in
      subst (IsBranched expression input) same (record {
        compares_parts = c;
        goes_on = refl;
        old_data = data';
        has_data = d;
        after = set_field "data" (object (set_field "branch" (text label) data')) input;
        written = m;
        new_data = set_field "branch" (text label) data';
        put_data = get_field-set_field "data" _ input;
        branch = get_field-set_field "branch" _ data';
        same_data = λ k ne. get_field-set_field_ne "branch" k _ data' ne;
        same_rest = λ k ne. get_field-set_field_ne "data" k _ input ne;
      })

  -- The decoded inputs, and the result, or the panic of a comparison on a "data" that is no object.
  abbrev pub Branches : String → String → Outcome → Type 0
  Branches config input o =
      (expression : String) × (fields : Fields) × (decode_config config ≡ some expression)
      × IsMap (parse_json input) fields
      × (((r : ExecResult) × (o ≡ executed r) × IsBranched expression fields r)
          ⊎ ((label : String) × (o ≡ panicked)
              × Compares decode_config parse_json marshal split trim_space deep_equal expression
                  fields label
              × IsNoObject (get_field "data" fields)))

  -- Why there is an error, and which.
  pub data Fails (config input : String) (e : ExecError) : Type 0 where
    no_config : decode_config config ≡ none → e ≡ bad_config → Fails config input e
    no_input :
        (expression : String)
        → decode_config config ≡ some expression
        → IsNoMap (parse_json input)
        → e ≡ bad_input
        → Fails config input e
    no_comparison :
        (expression : String) (fields : Fields)
        → decode_config config ≡ some expression
        → IsMap (parse_json input) fields
        → CannotCompare decode_config parse_json marshal split trim_space deep_equal expression
            fields e
        → Fails config input e
    no_output :
        (expression label : String) (fields inner : Fields)
        → decode_config config ≡ some expression
        → IsMap (parse_json input) fields
        → Compares decode_config parse_json marshal split trim_space deep_equal expression fields
            label
        → get_field "data" fields ≡ object inner
        → marshal (set_field "data" (object (set_field "branch" (text label) inner)) fields) ≡ none
        → e ≡ bad_output
        → Fails config input e

  abbrev pub Ends : String → String → Outcome → Type 0
  Ends config input o =
      Branches config input o ⊎ ((e : ExecError) × (o ≡ refused e) × Fails config input e)

  module _ (config input expression : String) (fields : Fields)
      (c : decode_config config ≡ some expression) (d : IsMap (parse_json input) fields) where
    stops :
        (label : String) (j : Json)
        → Compares decode_config parse_json marshal split trim_space deep_equal expression fields
            label
        → get_field "data" fields ≡ j
        → IsNoObject j
        → Ends config input panicked
    stops label j compared at none_there =
        inl
          (expression, fields, c, d, inr (label, refl, compared, λ m e. none_there m (sym at ∙ e)))

    put :
        (label : String) (j : Json)
        → Compares decode_config parse_json marshal split trim_space deep_equal expression fields
            label
        → get_field "data" fields ≡ j
        → Ends config input
            (put_branch decode_config parse_json marshal split trim_space deep_equal label fields j)
    put label null compared at = stops label null compared at (λ m e. cc)
    put label (boolean b) compared at = stops label (boolean b) compared at (λ m e. cc)
    put label (number t) compared at = stops label (number t) compared at (λ m e. cc)
    put label (text t) compared at = stops label (text t) compared at (λ m e. cc)
    put label (array t) compared at = stops label (array t) compared at (λ m e. cc)
    put label (object inner) compared at = go (marshal _) refl
      where
        go :
            (out : Option String)
            → marshal (set_field "data" (object (set_field "branch" (text label) inner)) fields)
              ≡ out
            → Ends config input
                (marshalled decode_config parse_json marshal split trim_space deep_equal label out)
        go none m = inr (_, refl, no_output expression label fields inner c d compared at m refl)
        go (some out) m = inl (
          expression,
          fields,
          c,
          d,
          inl (_, refl, on_object expression fields label inner _ compared at (some out) m refl),
        )

    weigh : Ends config input (
        branch_on decode_config parse_json marshal split trim_space deep_equal fields (
          evaluate_condition decode_config parse_json marshal split trim_space deep_equal expression
            fields))
    unfolding evaluate_condition
    weigh =
        elim (judged decode_config parse_json marshal split trim_space deep_equal expression fields
          (split expression "==") refl) [
            | inl (label, e, compared) ↦ rw e (put label (get_field "data" fields) compared refl)
            | inr (x, e, why) ↦ rw e (inr (x, refl, no_comparison expression fields c d why))
          ]

  -- A conditional node ends in one of three ways. It returns, and then its expression has two parts
  -- around "==", the label is "true" if the value at the path on the left of the input, which is an
  -- object, equals the literal on the right and "false" if not, the run goes on, and the output is
  -- the input with the label put at data.branch and every other field as before. It panics, and then
  -- the expression compares as before and the input's "data" is no object. Or it returns an error,
  -- and then there is a reason for that error: the configuration or the input does not decode, the
  -- expression has not two parts, the path leads nowhere, the literal is no JSON, or the output, of
  -- a comparison with a "data" that is an object, is not encoded.
  pub execute_conditional-Branches :
      (config input : String)
      → Ends config input (
          execute_conditional decode_config parse_json marshal split trim_space deep_equal config
            input)
  unfolding execute_conditional
  execute_conditional-Branches config input = start (decode_config config) refl
    where
      read :
          (expression : String)
          → decode_config config ≡ some expression
          → (m : Result ExecError Fields) → decode_map (parse_json input) ≡ m
          → Ends config input
              (on_input decode_config parse_json marshal split trim_space deep_equal expression m)
      read expression c (err e) d =
          let (which, no_map) = undecoded (parse_json input) e d in
          inr (e, refl, no_input expression c no_map which)
      read expression c (ok fields) d =
          weigh config input expression fields c (decoded (parse_json input) fields d)

      start :
          (c : Option String)
          → decode_config config ≡ c
          → Ends config input
              (on_config decode_config parse_json marshal split trim_space deep_equal input c)
      start none c = inr (_, refl, no_config c refl)
      start (some expression) c = read expression c (decode_map (parse_json input)) refl
