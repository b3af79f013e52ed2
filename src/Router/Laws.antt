-- ===== src/Router/Laws.antt =====
-- On a message from its receipt to the registered function, `Ssmgr::on_c2s_msg` of
-- src/core/ssmgr.cpp and `call_c2s`, `register_c2s`, `invoke_c2s` of src/core/router.h.
use text.Mathlib.Text.{◌==◌ as ◌=s◌}
use text.Mathlib.TextEquality.{eq_iff}
use Prim.Native.String.{String}
use uno_server.Common.{
  ℕ, Bool, true, false, Bool-cases, ◌==◌, if◌then◌else◌, Option, Option-cases, none, some, List, [],
  ◌∷◌, length, Outcome, ok, fault, assertion, ◌>>=◌, ◌≡◌, ◌≢◌, ◌⊎◌, inl, inr, refl, sym, ap, ◌∙◌,
  arith,
}
use uno_server.Router.Types.{
  Args, Func, Router, threw, Report, register_func, contain, decode, invoke,
}
use uno_server.Router.Calls.{caught, register_c2s, call_func, call_c2s, on_c2s_msg, on_message}

module _ {V Kind : Type 0} {Value : Kind → Type 0} (get : (k : Kind) → V → Option (Value k)) where
  -- There is one argument for each parameter, and it reads as that value.
  unfoldable pub Reads : (ks : List Kind) → List V → Args Value ks → Type 0
  unfolding Args
  Reads [] [] values = Unit {0}
  Reads [] (v ∷ vs) values = ⊥
  Reads (k ∷ ks) [] values = ⊥
  Reads (k ∷ ks) (v ∷ vs) (a, rest) = (get k v ≡ some a) × Reads ks vs rest

  decode-Reads :
      (ks : List Kind) (vs : List V)
      → length vs ≡ length ks
      → ((values : Args Value ks) × (decode get ks vs ≡ some values) × Reads ks vs values)
        ⊎ ((decode get ks vs ≡ none) × ((values : Args Value ks) → ¬ Reads ks vs values))
  unfolding Reads Args decode
  decode-Reads [] [] h = inl (tt, refl, tt)
  decode-Reads [] (v ∷ vs) h = absurd (grind arith)
  decode-Reads (k ∷ ks) [] h = absurd (grind arith)
  decode-Reads (k ∷ ks) (v ∷ vs) h = elim (Option-cases (get k v)) [
    | inl e ↦ inr (rw (decode, e) refl, λ values r. absurd (let q = r.0 in cc))
    | inr (a, e) ↦ elim (decode-Reads ks vs (grind arith)) [
      | inl (rest, d, r) ↦ inl ((a, rest), rw (decode, e, d) refl, (e, r))
      | inr (d, never) ↦ inr (rw (decode, e, d) refl, λ values r. never values.1 r.1)
    ]
  ]

  -- A function that is invoked gets the values that the arguments read as; with too few or too many
  -- of them an exception is thrown, and one that does not read stops the process.
  pub invoke-Reads :
      {X S : Type 0} (f : Func Value X S) (x : X) (args : List V) (s : S)
      → ((values : Args Value f.params) × Reads f.params args values
          × (invoke get f x args s ≡ f.body x values s))
        ⊎ ((length args ≢ length f.params) × (invoke get f x args s ≡ ok (threw s)))
        ⊎ ((length args ≡ length f.params)
            × ((values : Args Value f.params) → ¬ Reads f.params args values)
            × (invoke get f x args s ≡ fault assertion))
  unfolding invoke
  invoke-Reads f x args s = elim (Bool-cases (length args == length f.params)) [
    | inl e ↦ elim (decode-Reads f.params args (grind arith)) [
      | inl (values, d, r) ↦ inl (values, r, rw (invoke, e, d) refl)
      | inr (d, never) ↦ inr (inr (grind arith, never, rw (invoke, e, d) refl))
    ]
    | inr e ↦ inr (inl (grind arith, rw (invoke, e) refl))
  ]

  -- What becomes of a message for a function: it runs on the values of the arguments and what it
  -- throws is caught; with another number of arguments it does not run and the state is as it was;
  -- and an argument of another type stops the process.
  unfoldable pub Dispatched :
      {S : Type 0} → Func Value ℕ S → ℕ → List V → S → Outcome (Report × S) → Type 0
  Dispatched f sid args s after =
      ((values : Args Value f.params) × Reads f.params args values
        × (after ≡ (f.body sid values s >>= caught)))
      ⊎ ((length args ≢ length f.params) × (after ≡ ok (Report.failed, s)))
      ⊎ ((length args ≡ length f.params)
          × ((values : Args Value f.params) → ¬ Reads f.params args values)
          × (after ≡ fault assertion))

  module _ (get_string : V → Option String) {S : Type 0} (close : ℕ → S → Outcome S) (sid : ℕ)
      (r : Router Value S) (s : S) where
    -- What is done with the table's entry under the name of a message.
    unfoldable entry : List V → Option (Func Value ℕ S) → Outcome (Report × S)
    entry args none = ok (Report.undefined, s)
    entry args (some f) = invoke get f sid args s >>= caught

    on_message-entry :
        (n : V) (m : String) (args : List V)
        → get_string n ≡ some m
        → on_message get get_string close sid (some (n ∷ args)) r s ≡ entry args (r.c2s_funcs m)
    unfolding on_message on_c2s_msg call_c2s call_func contain entry
    on_message-entry n m args h = elim (Option-cases (r.c2s_funcs m)) [
      | inl e ↦ rw (on_c2s_msg, h, contain, e) refl
      | inr (f, e) ↦ rw (on_c2s_msg, h, contain, e, call_c2s, call_func) refl
    ]

  register_func-at :
      {S : Type 0} (name m : String) (f : Func Value ℕ S) (r : Router Value S) (b : Bool)
      → (name =s m) ≡ b
      → (register_c2s name f r).c2s_funcs m ≡ (if b then some f else r.c2s_funcs m)
  unfolding register_c2s register_func
  register_func-at name m f r b e = ap (λ c. if c then some f else r.c2s_funcs m) e

  module _ (get_string : V → Option String) {S : Type 0} (close : ℕ → S → Outcome S) (sid : ℕ)
      (r : Router Value S) (s : S) where
    -- A message of a session that names a registered function runs that function for this session
    -- on the values that the arguments behind the name read as, and what it throws is caught. With
    -- too few or too many arguments the function does not run and the state is as it was; with the
    -- right number, of which one does not read as its parameter, the process stops. A message with
    -- another name is treated as before the function was registered.
    pub on_message-register :
        (name : String) (f : Func Value ℕ S) (n : V) (m : String) (args : List V)
        → get_string n ≡ some m
        → ((name ≡ m)
            × Dispatched f sid args s
                (on_message get get_string close sid (some (n ∷ args)) (register_c2s name f r) s))
          ⊎ ((name ≢ m)
              × (on_message get get_string close sid (some (n ∷ args)) (register_c2s name f r) s
                  ≡ on_message get get_string close sid (some (n ∷ args)) r s))
    unfolding Dispatched entry caught
    on_message-register name f n m args h = elim (Bool-cases (name =s m)) [
      | inl e ↦ inl (
        (eq_iff name m).0 e,
        elim (invoke-Reads f sid args s) [
          | inl (values, reads, q) ↦ inl (values, reads, ran true e ∙ ap (λ o. o >>= caught) q)
          | inr (inl (other, q)) ↦ inr (inl (other, ran true e ∙ ap (λ o. o >>= caught) q))
          | inr (inr (same, never, q)) ↦
              inr (inr (same, never, ran true e ∙ ap (λ o. o >>= caught) q))
        ],
      )
      | inr e ↦ inr (
        λ p. absurd (let q = (eq_iff name m).1 p in cc),
        ran false e ∙ sym (on_message-entry get_string close sid r s n m args h),
      )
    ]
      where
        ran :
            (b : Bool)
            → (name =s m) ≡ b
            → on_message get get_string close sid (some (n ∷ args)) (register_c2s name f r) s
              ≡ entry get_string close sid r s args (if b then some f else r.c2s_funcs m)
        ran b e =
            on_message-entry get_string close sid (register_c2s name f r) s n m args h
            ∙ ap (entry get_string close sid r s args) (register_func-at name m f r b e)
