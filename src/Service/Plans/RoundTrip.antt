-- ===== src/Service/Plans/RoundTrip.antt =====
-- The text of the entries of a plan (internal/service/plan.go), written and read.
use mathlib.Core.Option
use Prim.Native.String.{◌++◌ as str_append}
use Prim.Native.String.{len}
use text.Mathlib.TextPositions.{len-append}
use metery.Prelude.{
  false, Option, some, String, List, [], ◌∷◌, ◌==◌, eq_iff, ◌≡◌, refl, sym, ap, ◌∙◌, arith,
  Bool-cases, Option-cases, inl, inr, none≢some, some_inj,
}
use metery.Service.Rpc.{PlanEntry, Codec, each, join, plan_entries_from_json, plan_entries_to_json}

-- What is relied on of JSON: an entry, the empty array, and an array of encoded entries read back.
pub record ReadsBack {M : Type 0} (codec : Codec M) : Type 0 where
  pub entry :
      (e : PlanEntry) (t : String) → codec.encode_entry e ≡ some t → codec.decode_entry t ≡ some e
  pub no_entries : codec.decode_array "[]" ≡ some []
  pub array :
      (es : List PlanEntry) (ts : List String)
      → each codec.encode_entry es ≡ some ts
      → codec.decode_array (str_append "[" (str_append (join ts) "]")) ≡ some ts

module _ {M : Type 0} (codec : Codec M) (back : ReadsBack codec) where
  each-decode_entry :
      (es : List PlanEntry) (ts : List String)
      → each codec.encode_entry es ≡ some ts
      → each codec.decode_entry ts ≡ some es
  each-decode_entry [] ts e = rw (sym (some_inj e)) refl
  each-decode_entry (p ∷ ps) ts e = elim (Option-cases (codec.encode_entry p)) [
    | inl n ↦ absurd (none≢some (rw (n, each) at e))
    | inr (t, o) ↦ elim (Option-cases (each codec.encode_entry ps)) [
      | inl n ↦ absurd (none≢some (rw (o, n, each) at e))
      | inr (rest, r) ↦
          let same : t ∷ rest ≡ ts = some_inj (rw (o, r, each) at e) in
          rw (← same, each, back.entry p t o, each-decode_entry ps rest r) refl
    ]
  ]

  bracketed : List String → String
  bracketed ts = str_append "[" (str_append (join ts) "]")

  bracketed_nonempty : (ts : List String) → (bracketed ts == "") ≡ false
  unfolding bracketed
  bracketed_nonempty ts = elim (Bool-cases (bracketed ts == "")) [
    | inr h ↦ h
    | inl h ↦
        let shut = str_append (join ts) "]" in
        let long = len-append "[" shut in
        let short : len (bracketed ts) ≡ 0 = ap len ((eq_iff (bracketed ts) "").0 h) in
        absurd (omega (arith, long, short))
  ]

  plan_entries_from_json-bracketed :
      (es : List PlanEntry) (ts : List String)
      → each codec.encode_entry es ≡ some ts
      → plan_entries_from_json codec (bracketed ts) ≡ some es
  unfolding plan_entries_from_json bracketed
  plan_entries_from_json-bracketed es ts o =
      rw (bracketed_nonempty ts, back.array es ts o) (each-decode_entry es ts o)

  pub plan_entries_from_json-to_json :
      (es : List PlanEntry) (text : String)
      → plan_entries_to_json codec es ≡ some text
      → plan_entries_from_json codec text ≡ some es
  unfolding plan_entries_to_json plan_entries_from_json bracketed
  plan_entries_from_json-to_json [] text e = rw (← some_inj e, back.no_entries) refl
  plan_entries_from_json-to_json (p ∷ ps) text e =
      let enclose : Option (List String) → Option String = λ o. Option.map bracketed o in
      elim (Option-cases (each codec.encode_entry (p ∷ ps))) [
        | inl n ↦ absurd (none≢some (sym (ap enclose n) ∙ e))
        | inr (ts, o) ↦
            let same : bracketed ts ≡ text = some_inj (sym (ap enclose o) ∙ e) in
            rw (← same) (plan_entries_from_json-bracketed (p ∷ ps) ts o)
      ]
