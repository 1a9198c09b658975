-- ===== src/Driver/Balance.antt =====
-- Loading, unloading, probing and removing leave nothing registered.
use dis_kverbs.Common.{
  ℕ, ◌≡◌, ◌⊎◌, inl, inr, refl, Bool, true, false, List, [], ◌++◌, some, arith, ◌==◌, Bool-cases,
}
use dis_kverbs.Events.{Event, replay}
use dis_kverbs.Verbs.{Ret, done, fail}
use dis_kverbs.Driver.{
  Registration, bus_type, bus_device, pseudo_device, device_driver, ib_memory, ib_registration,
  dis_bus_init, dis_bus_exit, dis_device_init, dis_device_exit, dis_driver_init, dis_driver_exit,
  dis_driver_probe, dis_driver_remove,
}

abbrev pub same : Registration → Registration → Bool
same bus_type bus_type = true
same bus_device bus_device = true
same pseudo_device pseudo_device = true
same device_driver device_driver = true
same (ib_memory a) (ib_memory b) = a == b
same (ib_registration a) (ib_registration b) = a == b
same _ _ = false

-- An attempt that either failed and holds nothing, or succeeded and is undone by `undo`, the latest
-- registration first.
abbrev pub IsUndone : Ret → List (Event Registration) → List (Event Registration) → Type 0
IsUndone ret events undo =
    ((ret ≡ fail 1) × (replay same [] events ≡ some []))
    ⊎ ((ret ≡ done) × (replay same [] (events ++ undo) ≡ some []))

bus-IsUndone :
    (bus_ok dev_ok : Bool)
    → IsUndone (dis_bus_init bus_ok dev_ok).0 (dis_bus_init bus_ok dev_ok).1 dis_bus_exit
unfolding dis_bus_init dis_bus_exit replay
bus-IsUndone false dev_ok = inl (refl, refl)
bus-IsUndone true false = inl (refl, refl)
bus-IsUndone true true = inr (refl, refl)

device-IsUndone :
    (ok : Bool) → IsUndone (dis_device_init ok).0 (dis_device_init ok).1 dis_device_exit
unfolding dis_device_init dis_device_exit replay
device-IsUndone false = inl (refl, refl)
device-IsUndone true = inr (refl, refl)

driver-IsUndone :
    (ok : Bool) → IsUndone (dis_driver_init ok).0 (dis_driver_init ok).1 dis_driver_exit
unfolding dis_driver_init dis_driver_exit replay
driver-IsUndone false = inl (refl, refl)
driver-IsUndone true = inr (refl, refl)

same_address : (a : ℕ) → (a == a) ≡ true
same_address a = ground arith

probe-IsUndone :
    (addr : ℕ) (ok : Bool) (dev : ℕ)
    → let (ret, d, events) = dis_driver_probe addr ok dev in
      IsUndone ret events (dis_driver_remove d).1
unfolding dis_driver_probe dis_driver_remove replay
probe-IsUndone addr ok dev = elim (Bool-cases (addr == 0)) [
  | inl null ↦ rw null (inl (refl, refl))
  | inr there ↦ elim (Bool-cases ok) [
    | inl up ↦ rw (there, up) (inr (refl, rw (same_address addr) refl))
    | inr down ↦ rw (there, down) (inl (refl, rw (same_address addr) refl))
  ]
]

-- Whatever the kernel's functions answer: loading the bus, the pseudo device or the driver, and probing a
-- device, either fails with -1 and leaves nothing registered or allocated, or returns 0, and then
-- unloading the module, or removing the device, gives back all of it, the latest first.
pub registrations-IsUndone :
    (bus_ok bus_dev_ok dev_ok drv_ok ib_ok : Bool) (addr dev : ℕ)
    → let (bus_ret, bus) = dis_bus_init bus_ok bus_dev_ok in
      let (dev_ret, device) = dis_device_init dev_ok in
      let (drv_ret, driver) = dis_driver_init drv_ok in
      let (probe_ret, d, probe) = dis_driver_probe addr ib_ok dev in
      IsUndone bus_ret bus dis_bus_exit
      × IsUndone dev_ret device dis_device_exit
      × IsUndone drv_ret driver dis_driver_exit
      × IsUndone probe_ret probe (dis_driver_remove d).1
registrations-IsUndone bus_ok bus_dev_ok dev_ok drv_ok ib_ok addr dev = (
  bus-IsUndone bus_ok bus_dev_ok,
  device-IsUndone dev_ok,
  driver-IsUndone drv_ok,
  probe-IsUndone addr ib_ok dev,
)
