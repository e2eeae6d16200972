-- ===== src/Service/Rpc.antt =====
-- What the handlers of internal/service/ share: connect's errors, calls of the store, the messages
-- of a plan's entries, and the code outside the repository that they call.
pub mod Keeps
pub mod Succeeds
use mathlib.Core.Option
use Prim.Native.String.{◌++◌ as str_append}
use metery.Prelude.{
  ℤ, pos, Bool, Option, none, some, String, List, [], ◌∷◌, ◌==◌, if◌then◌else◌, mul64, add64, ◌+ℤ◌,
}
use metery.Time.{Time, second, add_date}
use metery.Duration.{Duration, minute, hour}
use metery.Store.Db.{ok, err, Action, StoreError, no_rows, fail, pure}

pub data Code : Type 0 where
  not_found failed_precondition already_exists invalid_argument unauthenticated : Code

-- `connect.NewError`: with a code and a message; with a code and the store's error, where the code
-- is CodeInternal under `store_failed`; and with CodeInternal and a message (for an error of a codec
-- it is what could not be coded). `hangs` is no error of the source: it stands for a handler that does
-- not return within the fuel.
pub data RpcError : Type 0 where
  refused : Code → String → RpcError
  refused_with : Code → StoreError → RpcError
  store_failed : StoreError → RpcError
  internal : String → RpcError
  hangs : RpcError

module _ {A : Type 0} where
  -- A call of the store, with the error that the handler makes of a failure.
  abbrev pub or_else : Action StoreError A → (StoreError → RpcError) → Action RpcError A
  or_else m f w = let (r, w') = m w in elim r [ ok a ↦ (ok a, w') | err e ↦ (err (f e), w') ]

  abbrev pub or_refuse : Action StoreError A → Code → String → Action RpcError A
  or_refuse m code message = or_else m (λ e. refused code message)

  abbrev pub or_internal : Action StoreError A → Action RpcError A
  or_internal m = or_else m store_failed

  -- A call of the store where no row is no error.
  abbrev pub or_absent : Action StoreError A → Action RpcError (Option A)
  or_absent m w =
      let (r, w') = m w in
      elim r [
        | ok a ↦ (ok (some a), w')
        | err no_rows ↦ (ok none, w')
        | err e ↦ (err (store_failed e), w')
      ]

  -- A call of the store whose error is dropped: `c, _ := …`.
  abbrev pub or_nil : {E : Type 0} → Action StoreError A → Action E (Option A)
  or_nil m w = let (r, w') = m w in elim r [ ok a ↦ (ok (some a), w') | err e ↦ (ok none, w') ]

abbrev pub refuse_if : Bool → Code → String → Action RpcError (Unit {0})
refuse_if test code message = if test then fail (refused code message) else pure tt

-- A field of a message if it is set, and a default if not.
abbrev pub get_or {ℓ} : {A : Type ℓ} → Option A → A → A
get_or none d = d
get_or (some a) d = a

-- `PlanEntry` and its parts.
pub record UsagePeriod : Type 0 where
  pub duration : String
  pub anchor : Option Time

pub record GrantTemplate : Type 0 where
  pub amount : ℤ
  pub priority : Option ℤ
  pub expiration : Option String

pub record PlanEntry : Type 0 where
  pub feature_slug : String
  pub usage_period : Option UsagePeriod
  pub rollover : Option ℤ
  pub grant : Option GrantTemplate

-- The duration parser, json on an array, protojson on one entry of a plan (of the trimmed text), and
-- json on a message's metadata (the type M): none is the error of each.
pub record Codec (M : Type 0) : Type 0 where
  pub parse_duration : String → Option Duration
  pub decode_array : String → Option (List String)
  pub decode_entry : String → Option PlanEntry
  pub encode_entry : PlanEntry → Option String
  pub marshal : M → Option String
  pub unmarshal : String → Option M

-- `shiftTime` of the service and the worker, which does not read the sign of a duration.
unfoldable pub shift_time : Time → Duration → Time
shift_time t d =
    let days = add64 (mul64 d.weeks (pos 7)) d.days in
    let clock =
      add64 (add64 (mul64 d.hours (pos hour)) (mul64 d.minutes (pos minute)))
        (mul64 d.seconds (pos second)) in
    add_date t d.years d.months days +ℤ clock

-- The json of a message's metadata, left out where it cannot be made.
abbrev pub metadata_text : {M : Type 0} → Codec M → Option M → Option String
metadata_text codec none = none
metadata_text codec (some m) = codec.marshal m

-- The results of all calls, or none if one has none.
abbrev pub each {ℓ κ} : {A : Type ℓ} {B : Type κ} → (A → Option B) → List A → Option (List B)
each f [] = some []
each f (x ∷ xs) = elim (f x) [ none ↦ none | some y ↦ Option.map (λ ys. y ∷ ys) (each f xs) ]

-- A plan's entries from and to the text in its row, which is empty for no entries.
unfoldable pub plan_entries_from_json : {M : Type 0} → Codec M → String → Option (List PlanEntry)
plan_entries_from_json codec s =
    if s == ""
    then some []
    else elim (codec.decode_array s) [ none ↦ none | some raw ↦ each codec.decode_entry raw ]

-- `bytes.Join` with commas.
unfoldable pub join : List String → String
join [] = ""
join (s ∷ []) = s
join (s ∷ t ∷ rest) = str_append s (str_append "," (join (t ∷ rest)))

unfoldable pub plan_entries_to_json : {M : Type 0} → Codec M → List PlanEntry → Option String
unfolding join
plan_entries_to_json codec [] = some "[]"
plan_entries_to_json codec (e ∷ entries) =
    Option.map (λ parts. str_append "[" (str_append (join parts) "]"))
      (each codec.encode_entry (e ∷ entries))
