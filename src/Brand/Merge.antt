-- ===== src/Brand/Merge.antt =====
-- The values of a configuration and their deep merge (`deepMerge` of
-- frontend/T-010-brand-customization/src/brand/config-loader.ts).
pub mod Laws
use lite_nova.Prelude.{ℕ, Bool, true, false, String, Option, none, some, str_eq, if◌then◌else◌}
use lite_nova.Prelude.Int.{ℤ}

-- `missing` is undefined. No field is named `__proto__`.
mutual
  pub data Value : Type 0 where
    missing null : Value
    flag : Bool → Value
    number : ℤ → Value
    text : String → Value
    array : Items → Value
    object : Fields → Value

  pub data Items : Type 0 where
    nil : Items
    cons : Value → Items → Items

  pub data Fields : Type 0 where
    end : Fields
    field : String → Value → Fields → Fields

unfoldable pub is_missing : Value → Bool
is_missing missing = true
is_missing _ = false

-- `fields[name]`
unfoldable pub get : String → Fields → Value
get name end = missing
get name (field n v fields) = if str_eq n name then v else get name fields

-- `result[name] = f(result[name])`
unfoldable pub put : String → (Value → Value) → Fields → Fields
put name f end = field name (f missing) end
put name f (field n v fields) =
    if str_eq n name then field n (f v) fields else field n v (put name f fields)

unfoldable mutual
  unfolding is_missing put

  -- what is written for a value of the target and one of the source
  pub merge_value : Value → Value → Value
  merge_value old (object source) = elim old [
    | object target ↦ object (merge_fields target source)
    | _ ↦ object source
  ]
  merge_value old v = v

  -- the loop over the names of the source
  pub merge_fields : Fields → Fields → Fields
  merge_fields result end = result
  merge_fields result (field name v source) =
      merge_fields (if is_missing v then result else put name (λ old. merge_value old v) result)
        source

-- `deepMerge`
unfoldable pub deep_merge : (target : Fields) → (source : Option Fields) → Fields
unfolding merge_fields
deep_merge target none = target
deep_merge target (some source) = merge_fields target source
