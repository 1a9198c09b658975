-- ===== src/Driver.antt =====
-- The registrations of the three modules: bus/dis_bus.c, device/dis_device.c and driver/dis_driver.c. What
-- the kernel's registration functions answer is an argument: whether each of them succeeds.
pub mod Balance
pub mod Match
mod Tests
use dis_kverbs.Common.{ℕ, Bool, List, [], ◌∷◌, Option, none, some, if◌then◌else◌, ◌==◌}
use dis_kverbs.Events.{Event, acquire, release}
use dis_kverbs.Verbs.{Ret, done, fail}

-- What is registered or allocated; an IB device is named by its address.
pub data Registration : Type 0 where
  bus_type bus_device pseudo_device device_driver : Registration
  ib_memory ib_registration : ℕ → Registration

pub dis_bus_init : Bool → Bool → Ret × List (Event Registration)
dis_bus_init bus_register device_register =
    if bus_register
    then if device_register
      then (done, acquire bus_type ∷ acquire bus_device ∷ [])
      else (fail 1, acquire bus_type ∷ release bus_type ∷ [])
    else (fail 1, [])

pub dis_bus_exit : List (Event Registration)
dis_bus_exit = release bus_device ∷ release bus_type ∷ []

pub dis_device_init : Bool → Ret × List (Event Registration)
dis_device_init device_register =
    if device_register then (done, acquire pseudo_device ∷ []) else (fail 1, [])

pub dis_device_exit : List (Event Registration)
dis_device_exit = release pseudo_device ∷ []

pub dis_driver_init : Bool → Ret × List (Event Registration)
dis_driver_init driver_register =
    if driver_register then (done, acquire device_driver ∷ []) else (fail 1, [])

pub dis_driver_exit : List (Event Registration)
dis_driver_exit = release device_driver ∷ []

-- `struct dis_dev`, the numbers that the driver sets, and the device that it was probed for.
pub record DisDev : Type 0 where
  pub dev : ℕ
  pub phys_port_cnt : ℕ
  pub num_comp_vectors : ℕ
  pub local_dma_lkey : ℕ
  pub node_guid : ℕ
  pub max_segment_size : ℕ

-- `disdev`, the driver's one variable: an address, 0 for NULL, and what stands there.
pub record Driver : Type 0 where
  pub disdev : ℕ
  pub device : Option DisDev

pub probed : ℕ → DisDev
probed dev = record {
  dev = dev;
  phys_port_cnt = 1;
  num_comp_vectors = 1;
  local_dma_lkey = 1234;
  node_guid = 1234;
  max_segment_size = 2147483648;
}

-- Probing for the device at `dev`. `addr` is what ib_alloc_device returns; the variable keeps the address of
-- a device that was freed again.
pub dis_driver_probe : ℕ → Bool → ℕ → Ret × Driver × List (Event Registration)
dis_driver_probe addr ib_register_device dev =
    if addr == 0
    then (fail 1, record { disdev = 0; device = none }, [])
    else if ib_register_device
    then (
      done,
      record { disdev = addr; device = some (probed dev) },
      acquire (ib_memory addr) ∷ acquire (ib_registration addr) ∷ [],
    )
    else (
      fail 1,
      record { disdev = addr; device = none },
      acquire (ib_memory addr) ∷ release (ib_memory addr) ∷ [],
    )

-- The argument of the code's function is not read.
pub dis_driver_remove : Driver → Ret × List (Event Registration)
dis_driver_remove d = (done, release (ib_registration d.disdev) ∷ release (ib_memory d.disdev) ∷ [])

-- strncmp and strlen of the C library on strings without the terminating zero; a comparison is told by
-- the distance of its result from 0.
pub record Strings : Type 0 where
  pub strncmp : List ℕ → List ℕ → ℕ → ℕ
  pub strlen : List ℕ → ℕ

-- The names of the device and of the driver.
pub bus_match : Strings → List ℕ → List ℕ → Bool
bus_match s dev drv = s.strncmp dev drv (s.strlen drv) == 0
