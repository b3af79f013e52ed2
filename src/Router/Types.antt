-- ===== src/Router/Types.antt =====
-- The functions of `class Router` of src/core/router.h. The JSON library is a parameter: the values,
-- the types that `get` reads, and `get`, where `none` is a failed `assert` on the type of the value.
use text.Mathlib.Text.{◌==◌ as ◌=s◌}
use Prim.Native.String.{String}
use uno_server.Common.{
  ℕ, Bool, true, false, ◌==◌, if◌then◌else◌, Option, none, some, List, [], ◌∷◌, length, Outcome, ok,
  fault, assertion,
}

-- `args_tuple`: one value for each parameter.
unfoldable pub Args : {Kind : Type 0} → (Kind → Type 0) → List Kind → Type 0
Args Value [] = Unit {0}
Args Value (k ∷ ks) = Value k × Args Value ks

-- A function returns or throws; what it changed before it threw stays.
pub data Result (S : Type 0) : Type 0 where
  returned threw : S → Result S

-- A registered function. `X` is what it takes before the arguments of the message: the session for
-- c2s, nothing for s2s.
pub record Func {Kind : Type 0} (Value : Kind → Type 0) (X S : Type 0) : Type 0 where
  pub params : List Kind
  pub body : X → Args Value params → S → Outcome (Result S)

-- `s2s_funcs` and `c2s_funcs`
abbrev pub Funcs : {Kind : Type 0} → (Kind → Type 0) → Type 0 → Type 0 → Type 0
Funcs Value X S = String → Option (Func Value X S)

pub record Router {Kind : Type 0} (Value : Kind → Type 0) (S : Type 0) : Type 0 where
  pub s2s_funcs : Funcs Value (Unit {0}) S
  pub c2s_funcs : Funcs Value ℕ S

-- What the server writes of a message.
pub data Report : Type 0 where
  not_array undefined unhandled failed handled : Report

module _ {Kind : Type 0} {Value : Kind → Type 0} {X S : Type 0} where
  -- `funcs[funcname] = func`
  unfoldable pub register_func : String → Func Value X S → Funcs Value X S → Funcs Value X S
  register_func name f funcs = λ n. if name =s n then some f else funcs n

  -- `funcs.contains(funcname)`
  unfoldable pub contain : String → Funcs Value X S → Bool
  contain name funcs = elim (funcs name) [ none ↦ false | some _ ↦ true ]

module _ {V Kind : Type 0} {Value : Kind → Type 0} (get : (k : Kind) → V → Option (Value k)) where
  -- `args[Is].get<...>()...`, for as many arguments as parameters.
  unfoldable pub decode : (ks : List Kind) → List V → Option (Args Value ks)
  unfolding Args
  decode [] _ = some tt
  decode (k ∷ ks) [] = none
  decode (k ∷ ks) (v ∷ vs) = elim (get k v) [
    | none ↦ none
    | some a ↦ elim (decode ks vs) [ none ↦ none | some rest ↦ some (a, rest) ]
  ]

  -- `invoke_s2s` and `invoke_c2s`
  unfoldable pub invoke : {X S : Type 0} → Func Value X S → X → List V → S → Outcome (Result S)
  unfolding decode
  invoke f x args s =
      if length args == length f.params
      then elim (decode f.params args) [ none ↦ fault assertion | some values ↦ f.body x values s ]
      else ok (threw s)
