-- ===== src/Router/Calls.antt =====
-- The calls of `class Router` of src/core/router.h, and `Ssmgr::on_c2s_msg` and the `onMessage`
-- callback of `Ssmgr::accept` in src/core/ssmgr.cpp, as what happens to the state `S` of the server.
use Prim.Native.String.{String}
use uno_server.Common.{
  ℕ, if◌then◌else◌, Option, none, some, List, [], ◌∷◌, Outcome, ok, fault, assertion, out_of_bounds,
  ◌>>=◌,
}
use uno_server.Router.Types.{
  Result, returned, threw, Func, Funcs, Router, Report, register_func, contain, invoke,
}

-- An exception is caught and written.
unfoldable pub caught : {S : Type 0} → Result S → Outcome (Report × S)
caught (returned s) = ok (Report.handled, s)
caught (threw s) = ok (Report.failed, s)

module _ {Kind : Type 0} {Value : Kind → Type 0} {S : Type 0} where
  unfoldable pub register_s2s : String → Func Value (Unit {0}) S → Router Value S → Router Value S
  unfolding register_func
  register_s2s name f r = record r { s2s_funcs = register_func name f r.s2s_funcs }

  unfoldable pub register_c2s : String → Func Value ℕ S → Router Value S → Router Value S
  unfolding register_func
  register_c2s name f r = record r { c2s_funcs = register_func name f r.c2s_funcs }

module _ {V Kind : Type 0} {Value : Kind → Type 0} (get : (k : Kind) → V → Option (Value k)) where
  -- `call_s2s` and `call_c2s` on their table.
  unfoldable pub call_func :
      {X S : Type 0} → Funcs Value X S → String → X → List V → S → Outcome (Report × S)
  unfolding invoke caught
  call_func funcs name x args s = elim (funcs name) [
    | none ↦ ok (Report.unhandled, s)
    | some f ↦ invoke get f x args s >>= caught
  ]

  module _ {S : Type 0} where
    unfoldable pub call_s2s : String → List V → Router Value S → S → Outcome (Report × S)
    unfolding call_func
    call_s2s name args r s = call_func r.s2s_funcs name tt args s

    unfoldable pub call_c2s : String → ℕ → List V → Router Value S → S → Outcome (Report × S)
    unfolding call_func
    call_c2s name sid args r s = call_func r.c2s_funcs name sid args s

    module _ (get_string : V → Option String) where
      -- `args[0]` is the name; `get_string` asserts that it is a text.
      unfoldable pub on_c2s_msg : ℕ → List V → Router Value S → S → Outcome (Report × S)
      unfolding call_c2s contain
      on_c2s_msg sid [] r s = fault out_of_bounds
      on_c2s_msg sid (n ∷ newargs) r s = elim (get_string n) [
        | none ↦ fault assertion
        | some name ↦
            if contain name r.c2s_funcs
            then call_c2s name sid newargs r s
            else ok (Report.undefined, s)
      ]

      -- The callback of `onMessage`, for a message that is an array or not. `close` is what closing the
      -- socket of a session does to the server, its `onClose` included.
      unfoldable pub on_message :
          (ℕ → S → Outcome S) → ℕ → Option (List V) → Router Value S → S → Outcome (Report × S)
      unfolding on_c2s_msg
      on_message close sid none r s = close sid s >>= λ s1. ok (Report.not_array, s1)
      on_message close sid (some []) r s = fault assertion
      on_message close sid (some (n ∷ args)) r s = on_c2s_msg sid (n ∷ args) r s
