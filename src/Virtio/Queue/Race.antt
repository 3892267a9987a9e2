-- ===== src/Virtio/Queue/Race.antt =====
-- The race of src/virtio/queue.rs between the device, which publishes a used entry and decides whether
-- to interrupt, and a driver that re-enables interrupts and looks again.
use tinyvmm.Prelude.{ℕ, ◌+◌, ◌*◌, ◌≡◌, Bool, true, not, Option, none, some, ◌==◌}
use tinyvmm.Memory.{GuestMemory, read_u16, store_u16}
use tinyvmm.Virtio.Queue.{Virtqueue}
use tinyvmm.Virtio.Queue.Pop.{push, should_interrupt_driver}

-- The device pushes a chain and then decides whether to interrupt.
pub data Device : Type 0 where
  ready : Device
  published : Device
  decided : Bool → Device

-- The driver, having consumed all entries below `seen`, writes that index as its event and then
-- looks at the used index again.
pub data Driver : Type 0 where
  working : Driver
  enabled : Driver
  rechecked : Bool → Driver

pub record Race : Type 0 where
  pub mem : GuestMemory
  pub queue : Virtqueue
  pub device : Device
  pub driver : Driver

abbrev pub event_gpa : Virtqueue → ℕ
event_gpa q = q.avail_gpa + 4 + 2 * q.size

-- Whether the driver finds entries beyond `seen`.
abbrev pub finds_more : Option ℕ → ℕ → Bool
finds_more none seen = true
finds_more (some idx) seen = not (idx == seen)

module _ (id len seen : ℕ) where
  -- One step of either side; RAM is sequentially consistent, which the fences on both sides give.
  pub data Step : Race → Race → Type 0 where
    publish :
        {s : Race} (m' : GuestMemory) (q' : Virtqueue)
        → s.device ≡ Device.ready
        → push s.mem s.queue id len ≡ some (m', q')
        → Step s (record s { mem = m'; queue = q'; device = Device.published })
    decide :
        {s : Race} (m' : GuestMemory) (q' : Virtqueue) (irq : Bool)
        → s.device ≡ Device.published
        → should_interrupt_driver (λ b. b) s.mem s.queue ≡ (m', q', irq)
        → Step s (record s { mem = m'; queue = q'; device = Device.decided irq })
    enable :
        {s : Race}
        → s.driver ≡ Driver.working
        → Step s (record s {
          mem = (store_u16 s.mem (event_gpa s.queue) seen).0;
          driver = Driver.enabled;
        })
    recheck :
        {s : Race}
        → s.driver ≡ Driver.enabled
        → Step s (record s {
          driver = Driver.rechecked (finds_more (read_u16 s.mem (s.queue.used_gpa + 2)) seen);
        })

  pub data Reach (s : Race) : Race → Type 0 where
    here : Reach s s
    next : {t u : Race} → Reach s t → Step t u → Reach s u
