-- ===== src/Execution/Oms/Frame.antt =====
-- Rules for methods that keep a property of the service, and the changes that they are made of.
use krakked.Prelude.{
  Option, none, some, String, Bool-cases, inl, inr, if◌then◌else◌, ◌≡◌, refl, Bool, true, false,
  Option, none, some, List, [], ◌∷◌,
}
use krakked.Prelude.Dict.{Dict, get, put, pop}
use krakked.Execution.Models.{LocalOrder, ExecutionResult}
use krakked.Execution.Oms.State.{
  on_option, is_active, Oms, M, World, Event, submitted, pure, call, gets, emit, modify, when,
  ◌>>=◌,
}
use krakked.Execution.Oms.Book.{
  register_order, register_all, write_back, write_through, forget, record_execution_result,
}

-- `m` keeps `P`
pub record Keeps {F W A : Type 0} (P : Oms F W → Type 0) (m : M F W A) : Type 0 where
  pub at : (s : Oms F W) → P s → P (m s).1

abbrev pub is_submission : {F : Type 0} → Event F → Bool
is_submission (submitted o) = true
is_submission _ = false

-- `P` says nothing of the outside
pub record CallFrame {F W : Type 0} (P : Oms F W → Type 0) : Type 0 where
  pub outside :
      (s : Oms F W) (w : W) → P s → P (record s { world = record s.world { outside = w } })

-- what the service does to its book, past results and log, but for a submission, keeps `P`
pub record Frame {F W : Type 0} (P : Oms F W → Type 0) : Type 0 where
  pub calls : CallFrame P
  pub event :
      (s : Oms F W) (e : Event F)
      → is_submission e ≡ false
      → P s
      → P (record s { world = record s.world { trace = e ∷ s.world.trace } })
  pub filed :
      (s : Oms F W) (o : LocalOrder F) (ids : Dict String)
      → P s
      → P (record s { open_orders = put o.local_id o s.open_orders; kraken_to_local = ids })
  pub removed :
      (s : Oms F W) (id : String) → P s → P (record s { open_orders = pop id s.open_orders })
  pub indexed : (s : Oms F W) (ids : Dict String) → P s → P (record s { kraken_to_local = ids })
  pub recent :
      (s : Oms F W) (results : List (ExecutionResult F))
      → P s
      → P (record s { recent_executions = results })

module _ {F W A : Type 0} {P : Oms F W → Type 0} where
  pub Keeps-pure : (a : A) → Keeps P (pure a)
  Keeps-pure a = record { at = λ s h. h }

  pub Keeps-gets : (g : Oms F W → A) → Keeps P (gets g)
  Keeps-gets g = record { at = λ s h. h }

  pub Keeps-if : (b : Bool) (m n : M F W A) → Keeps P m → Keeps P n → Keeps P (if b then m else n)
  Keeps-if true m n km kn = km
  Keeps-if false m n km kn = kn

  pub Keeps-call : CallFrame P → (g : World F W → A × W) → Keeps P (call g)
  unfolding call
  Keeps-call k g = record { at = λ s h. k.outside s (g s.world).1 h }

module _ {F W A B : Type 0} {P : Oms F W → Type 0} where
  pub Keeps-bind :
      (m : M F W A) (g : A → M F W B) → Keeps P m → ((a : A) → Keeps P (g a)) → Keeps P (m >>= g)
  Keeps-bind m g km kg = record { at = λ s h. (kg (m s).0).at (m s).1 (km.at s h) }

module _ {F W A B : Type 0} {P : Oms F W → Type 0} where
  pub Keeps-on_option :
      (o : Option A) (m : M F W B) (g : A → M F W B)
      → Keeps P m
      → ((a : A) → Keeps P (g a))
      → Keeps P (on_option o m g)
  Keeps-on_option none m g km kg = km
  Keeps-on_option (some a) m g km kg = kg a

module _ {F W : Type 0} {P : Oms F W → Type 0} where
  pub Keeps-modify : (g : Oms F W → Oms F W) → ((s : Oms F W) → P s → P (g s)) → Keeps P (modify g)
  Keeps-modify g h = record { at = h }

  pub Keeps-when : (b : Bool) (m : M F W (Unit {0})) → Keeps P m → Keeps P (when b m)
  Keeps-when true m km = km
  Keeps-when false m km = Keeps-pure tt

module _ {F W : Type 0} {P : Oms F W → Type 0} (k : Frame P) where
  pub Keeps-emit : (e : Event F) → is_submission e ≡ false → Keeps P (emit e)
  unfolding emit
  Keeps-emit e h = record { at = λ s p. k.event s e h p }

  pub register_order-keeps : (o : LocalOrder F) (s : Oms F W) → P s → P (register_order o s)
  unfolding register_order
  register_order-keeps o s h = elim (Bool-cases (is_active o)) [
    | inl e ↦ rw e (k.filed s o _ h)
    | inr e ↦ rw e h
  ]

  pub write_back-keeps : (o : LocalOrder F) (s : Oms F W) → P s → P (write_back o s)
  unfolding write_back
  write_back-keeps o s h = k.filed s o s.kraken_to_local h

  pub forget-keeps : (o : LocalOrder F) (s : Oms F W) → P s → P (forget o s)
  unfolding forget
  forget-keeps o s h = k.removed s o.local_id h

  pub register_all-keeps : (os : List (LocalOrder F)) (s : Oms F W) → P s → P (register_all os s)
  unfolding register_all
  register_all-keeps [] s h = h
  register_all-keeps (o ∷ os) s h =
      register_all-keeps os (register_order o s) (register_order-keeps o s h)

  pub Keeps-register_order : (o : LocalOrder F) → Keeps P (modify (register_order o))
  Keeps-register_order o = record { at = register_order-keeps o }

  write_through-keeps : (o : LocalOrder F) (s : Oms F W) → P s → P (write_through o s)
  unfolding write_through
  write_through-keeps o s h = go (get o.local_id s.open_orders)
    where
      go : (known : Option (LocalOrder F)) → P (elim known [ none ↦ s | some _ ↦ write_back o s ])
      go none = h
      go (some _) = write_back-keeps o s h

  pub Keeps-write_through : (o : LocalOrder F) → Keeps P (modify (write_through o))
  Keeps-write_through o = record { at = write_through-keeps o }

  pub Keeps-record : (r : ExecutionResult F) → Keeps P (modify (record_execution_result r))
  unfolding record_execution_result
  Keeps-record r = record { at = λ s h. k.recent s _ h }

module _ {F W : Type 0} where
  -- what is written to the outside leaves the book as it is
  pub emit-book :
      (b : Bool) (e : Event F) (s : Oms F W) → (when b (emit e) s).1.open_orders ≡ s.open_orders
  unfolding emit
  emit-book true e s = refl
  emit-book false e s = refl

pub ruleset keeps_rules =
    (Keeps-pure, Keeps-gets, Keeps-if, Keeps-bind, Keeps-on_option, Keeps-when)
