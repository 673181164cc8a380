-- ===== src/Flag.antt =====
-- Feature flags (internal/store/feature_flags.go): their rows, their evaluation for a user, and the
-- operations on the table.
pub mod Filter
pub mod Evaluate
pub mod Table
mod Examples
use sightpane.Prelude.{ℕ, Bool, Option, List}
use sightpane.Prelude.Int.{ℤ}
use sightpane.Prelude.Text.{Text}

-- A value of Go's type any, as decoded from JSON: `other` is a Boolean or an object. `F` is float64,
-- `A` any.
pub data Value (F A : Type 0) : Type 0 where
  null : Value F A
  text : Text → Value F A
  number : F → Value F A
  array : List A → Value F A
  other : A → Value F A

-- Go's standard library: `lower` is unicode.ToLower, `show` and `show_any` are fmt.Sprintf("%v"),
-- `compile` is regexp.Compile with MatchString, `parse_float` is strconv.ParseFloat, `less` and
-- `less_eq` are < and <= on float64, `sum256` is sha256.Sum256 on the bytes of a text.
pub record FlagLib : Type 1 where
  pub F : Type 0
  pub Any : Type 0
  pub lower : ℕ → ℕ
  pub show : Value F Any → Text
  pub show_any : Any → Text
  pub compile : Text → Option (Text → Bool)
  pub parse_float : Text → Option F
  pub less : F → F → Bool
  pub less_eq : F → F → Bool
  pub sum256 : Text → List ℕ

pub record FlagFilter (lib : FlagLib) : Type 0 where
  pub property : Text
  pub operator : Text
  pub value : Value lib.F lib.Any

pub record FlagVariant : Type 0 where
  pub key : Text
  pub rollout : ℤ

pub record FeatureFlag (lib : FlagLib) : Type 0 where
  pub id : ℕ
  pub project_id : ℕ
  pub key : Text
  pub name : Text
  pub description : Text
  pub enabled : Bool
  pub rollout_percentage : ℤ
  pub filters : List (FlagFilter lib)
  pub variants : List FlagVariant
