-- ===== src/Execution/Oms/Book/Keyed.antt =====
-- The keys of the book.
use krakked.Prelude.{◌≡◌, refl}
use krakked.Prelude.Dict.{AllEntries, put-AllEntries, pop-AllEntries}
use krakked.Execution.Models.{LocalOrder}
use krakked.Execution.Oms.State.{Oms}
use krakked.Execution.Oms.Frame.{Frame}

module _ {F W : Type 0} where
  -- each order stands in the book under its own local id
  abbrev pub IsKeyed : Oms F W → Type 0
  IsKeyed s = AllEntries (λ id (o : LocalOrder F). o.local_id ≡ id) s.open_orders

  pub Frame-IsKeyed : Frame IsKeyed
  Frame-IsKeyed = record {
    calls = record { outside = λ s w h. h };
    event = λ s e n h. h;
    filed = λ s o ids h. put-AllEntries _ o.local_id o s.open_orders refl h;
    removed = λ s id h. pop-AllEntries _ id s.open_orders h;
    indexed = λ s ids h. h;
    recent = λ s results h. h;
  }
