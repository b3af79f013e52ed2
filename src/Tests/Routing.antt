-- ===== src/Tests/Routing.antt =====
-- A message that the router passes on, with a small JSON library.

use Prim.Native.String.{String}
use uno_server.Common.{
  ℕ, Option, none, some, List, [], ◌∷◌, Outcome, ok, fault, assertion, ◌≡◌, ◌≢◌, ◌⊎◌, refl,
}
use uno_server.Router.Types.{Args, Result, returned, Func, Router, Report}
use uno_server.Router.Calls.{on_message, register_c2s}
use uno_server.Router.Laws.{Dispatched, on_message-register}

data Json : Type 0 where
  number : ℕ → Json
  text : String → Json

data Kind : Type 0 where
  int_kind string_kind : Kind

abbrev Value : Kind → Type 0
Value int_kind = ℕ
Value string_kind = String

abbrev get : (k : Kind) → Json → Option (Value k)
get int_kind (number n) = some n
get int_kind (text s) = none
get string_kind (number n) = none
get string_kind (text s) = some s

abbrev get_string : Json → Option String
get_string j = get string_kind j

abbrev close : ℕ → List ℕ → Outcome (List ℕ)
close sid s = ok s

-- A function of one number, which keeps the number with the session.
unfoldable entered : ℕ → Args Value (int_kind ∷ []) → List ℕ → Outcome (Result (List ℕ))
unfolding Args
entered sid (id, _) s = ok (returned (sid ∷ id ∷ s))

abbrev enter : Func Value ℕ (List ℕ)
enter = record { params = int_kind ∷ []; body = entered }

abbrev enter_name : String
enter_name = "enter_room_req"

abbrev no_functions : Router Value (List ℕ)
no_functions = record { s2s_funcs = λ _. none; c2s_funcs = λ _. none }

on_message-register_example :
    ((enter_name ≡ enter_name)
      × Dispatched get enter 4 (number 100001 ∷ []) [] (
          on_message get get_string close 4
            (some (text enter_name ∷ number 100001 ∷ []))
            (register_c2s enter_name enter no_functions)
            []))
    ⊎ ((enter_name ≢ enter_name)
        × (on_message get get_string close 4
              (some (text enter_name ∷ number 100001 ∷ []))
              (register_c2s enter_name enter no_functions)
              []
            ≡ on_message get get_string close 4
                (some (text enter_name ∷ number 100001 ∷ []))
                no_functions
                []))
on_message-register_example =
    on_message-register get get_string close 4 no_functions [] enter_name enter (text enter_name)
      enter_name (number 100001 ∷ []) refl

-- The function runs on the number, and with an argument too many it does not. A text in place of
-- the number and an empty message stop the process.
runs_example :
    on_message get get_string close 4
      (some (text enter_name ∷ number 100001 ∷ []))
      (register_c2s enter_name enter no_functions)
      []
    ≡ ok (Report.handled, 4 ∷ 100001 ∷ [])
unfolding on_message register_c2s entered
runs_example = refl

too_many_example :
    on_message get get_string close 4
      (some (text enter_name ∷ number 100001 ∷ number 1 ∷ []))
      (register_c2s enter_name enter no_functions)
      []
    ≡ ok (Report.failed, [])
unfolding on_message register_c2s
too_many_example = refl

empty_example : on_message get get_string close 4 (some []) no_functions [] ≡ fault assertion
unfolding on_message
empty_example = refl

wrong_type_example :
    on_message get get_string close 4
      (some (text enter_name ∷ text enter_name ∷ []))
      (register_c2s enter_name enter no_functions)
      []
    ≡ fault assertion
unfolding on_message register_c2s
wrong_type_example = refl
