-- ===== src/Session/Emitter.antt =====
-- `class EventEmitter` of src/core/EventEmitter.h with `FunctionType` of src/core/func_trait.h. A
-- listener is kept as a `std::function` of its own parameter types, and runs when the signature
-- that `emit` deduces from the arguments of the call is the same.
use uno_server.Common.{
  Bool, true, false, ◌&&◌, List, [], ◌∷◌, ◌++◌, if◌then◌else◌, Outcome, ok, ◌>>=◌,
}

-- The C++ types of the arguments in use.
pub data CppType : Type 0 where
  session_ptr string : CppType

-- A parameter type: `T`, `T&` or `const T&`.
pub data ParamKind : Type 0 where
  by_value by_ref by_const_ref : CppType → ParamKind

-- An argument of a call: a temporary, a variable, or a variable that is const.
pub data Argument : Type 0 where
  temporary variable const_variable : CppType → Argument

-- What `Args&&...` deduces.
unfoldable pub deduce : Argument → ParamKind
deduce (Argument.temporary t) = ParamKind.by_value t
deduce (Argument.variable t) = ParamKind.by_ref t
deduce (Argument.const_variable t) = ParamKind.by_const_ref t

unfoldable pub deduced : List Argument → List ParamKind
deduced [] = []
deduced (a ∷ args) = deduce a ∷ deduced args

unfoldable pub same_type : CppType → CppType → Bool
same_type CppType.session_ptr CppType.session_ptr = true
same_type CppType.string CppType.string = true
same_type _ _ = false

unfoldable pub same_kind : ParamKind → ParamKind → Bool
unfolding same_type
same_kind (ParamKind.by_value t) (ParamKind.by_value u) = same_type t u
same_kind (ParamKind.by_ref t) (ParamKind.by_ref u) = same_type t u
same_kind (ParamKind.by_const_ref t) (ParamKind.by_const_ref u) = same_type t u
same_kind _ _ = false

-- Whether `std::any_cast` to that `std::function` succeeds.
unfoldable pub same_signature : List ParamKind → List ParamKind → Bool
unfolding same_kind
same_signature [] [] = true
same_signature (k ∷ ks) (j ∷ js) = same_kind k j && same_signature ks js
same_signature _ _ = false

-- The names of events in use.
pub data EventName : Type 0 where
  login logout : EventName

unfoldable pub same_name : EventName → EventName → Bool
same_name EventName.login EventName.login = true
same_name EventName.logout EventName.logout = true
same_name _ _ = false

-- A callback with its parameter types; the values of its arguments are fixed with it.
pub record Listener (S : Type 0) : Type 0 where
  pub signature : List ParamKind
  pub callback : S → Outcome S

-- `listeners`: no entry is an empty list.
abbrev pub EventEmitter : Type 0 → Type 0
EventEmitter S = EventName → List (Listener S)

module _ {S : Type 0} where
  -- `listeners[eventName].push_back(...)`
  unfoldable pub on : EventName → Listener S → EventEmitter S → EventEmitter S
  unfolding same_name
  on name l e = λ n. if same_name name n then e n ++ l ∷ [] else e n

  -- A callback of another signature is reported and skipped.
  unfoldable pub call_all : List ParamKind → List (Listener S) → S → Outcome S
  call_all signature [] s = ok s
  call_all signature (l ∷ ls) s = do
    s1 ← (if same_signature l.signature signature then l.callback s else ok s)
    call_all signature ls s1

  unfoldable pub emit_as : List ParamKind → EventName → EventEmitter S → S → Outcome S
  emit_as signature name e s = call_all signature (e name) s

  unfoldable pub emit : List Argument → EventName → EventEmitter S → S → Outcome S
  emit args name e s = emit_as (deduced args) name e s
