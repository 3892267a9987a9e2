-- ===== src/Vmbus/Host/PageLists.antt =====
-- The messages of src/vmbus/mod.rs that hand page lists over, and the rings in a complete one.
use tinyvmm.Prelude.{
  ℕ, ◌+◌, ◌-◌, ◌/◌, true, false, not, ◌&&◌, ◌||◌, Option, none, some, List, ◌++◌, length, take,
  drop, leb, ltb, ◌==◌, ◌>>=◌, if◌then◌else◌,
}
use tinyvmm.Vmbus.Ring
use tinyvmm.Vmbus.Ring.{Ring}
use tinyvmm.Vmbus.Protocol.{gpadl_header_pfns, gpadl_body_pfns, u16_at, u32_at, gpadl_created, pfns}
use tinyvmm.Vmbus.Host.{max_gpadls, max_gpadl_pages, Gpadl, State, get, contains_key, insert, queue}

-- `div_ceil(4096)`
abbrev pub div_ceil_4096 : ℕ → ℕ
div_ceil_4096 n = (n + 4095) / 4096

-- A new GPADL once the fields of its header are read.
unfoldable pub add_gpadl : State → List ℕ → ℕ → ℕ → ℕ → ℕ → State
unfolding queue pfns gpadl_created
add_gpadl st m relid id ranges pages =
    let ok =
      ranges == 1
      && (leb 1 pages && leb pages max_gpadl_pages)
      && ltb (length st.gpadls) max_gpadls
      && not (contains_key st.gpadls id) in
    let list = pfns m gpadl_header_pfns pages in
    let kept = record st {
      gpadls = insert st.gpadls id (record { relid = relid; pages = pages; pfns = list });
    } in
    if not ok
    then queue st (gpadl_created relid id false)
    else if length list == pages
    then queue kept (gpadl_created relid id true)
    else kept

unfoldable pub gpadl_header : State → List ℕ → State
unfolding add_gpadl
gpadl_header st m = elim (u32_at m 8) [
  | none ↦ st
  | some relid ↦ elim (u32_at m 12) [
    | none ↦ st
    | some id ↦ elim (u16_at m 18) [
      | none ↦ st
      | some ranges ↦ elim (u32_at m 20) [
        | none ↦ st
        | some bytes ↦ elim (u32_at m 24) [
          | none ↦ st
          | some offset ↦ add_gpadl st m relid id ranges (div_ceil_4096 (offset + bytes))
        ]
      ]
    ]
  ]
]

-- The PFNs that a body message adds to a GPADL.
unfoldable pub extend_gpadl : State → List ℕ → ℕ → Gpadl → State
unfolding queue pfns gpadl_created
extend_gpadl st m id g =
    let missing = g.pages - length g.pfns in
    let list = g.pfns ++ pfns m gpadl_body_pfns missing in
    let kept = record st { gpadls = insert st.gpadls id (record g { pfns = list }) } in
    if missing == 0
    then st
    else if length list == g.pages
    then queue kept (gpadl_created g.relid id true)
    else kept

unfoldable pub gpadl_body : State → List ℕ → State
unfolding extend_gpadl
gpadl_body st m = elim (u32_at m 12) [
  | none ↦ st
  | some id ↦ elim (get st.gpadls id) [ none ↦ st | some g ↦ extend_gpadl st m id g ]
]

-- `split_at_checked`, then the two rings.
unfoldable pub rings : Gpadl → ℕ → Option (Ring × Ring)
unfolding Ring.new
rings g downstream =
    if not (length g.pfns == g.pages) || ltb (length g.pfns) downstream
    then none
    else (Ring.new (take downstream g.pfns) >>= λ send.
        Ring.new (drop downstream g.pfns) >>= λ receive. some (send, receive))
