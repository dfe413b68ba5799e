-- ===== src/Devices/Pci/Search.antt =====
-- What `pci_find_device` finds.
use weensy_osvm.Base.{ℕ, ◌-◌, ◌^◌, ◌≤◌, ◌<◌, ◌≡◌, ◌≢◌, ◌⊎◌, Option, none, some, ◌∷◌, bit_or}
use weensy_osvm.X86.{u32, int_minus_one}
use weensy_osvm.Devices.{Access, Trace, Device}
use weensy_osvm.Devices.Pci.{
  pci_make_configaddr, pci_host_bridge_config_addr, pci_host_bridge_config_data,
}

-- The host bridge: a read of its data port returns the word of the configuration space, that it is
-- `config`, at the address written last.
pub record IsBridge (device : Device) (config : ℕ → ℕ) : Type 0 where
  pub answers :
      (t : Trace) (a : ℕ)
      → device
          (Access.in32 pci_host_bridge_config_data ∷ Access.out32 pci_host_bridge_config_addr a ∷ t)
        ≡ config a
  pub words : (a : ℕ) → config a < 2 ^ 32

-- The first word of a function's configuration space: its device and its vendor.
abbrev pub identity : (config : ℕ → ℕ) (bus slot func : ℕ) → ℕ
identity config bus slot func =
    config (u32 (bit_or (bit_or 0x80000000 (pci_make_configaddr bus slot func)) 0))

-- A function is passed over: it is another device, or the slot's function 0 does not answer.
abbrev pub Missed : (config : ℕ → ℕ) (wanted bus slot func : ℕ) → Type 0
Missed config wanted bus slot func =
    (identity config bus slot func ≢ wanted) ⊎ (identity config bus slot 0 ≡ 2 ^ 32 - 1)

module _ (device : Device) (config : ℕ → ℕ) (bridge : IsBridge device config) (wanted : ℕ) where
  -- A function that answers as wanted, with its bus, its slot and its number in the slot.
  abbrev IsFound : Option ℕ → Type 0
  IsFound r =
      (bus slot func : ℕ) × (bus < 256)
      × (slot < 32)
      × (func < 8)
      × (r ≡ some (pci_make_configaddr bus slot func))
      × (identity config bus slot func ≡ wanted)

  -- A loop has found a function, or all that it has passed are missed.
  abbrev Searched : (Missing : ℕ → Type 0) (low high : ℕ) → Option ℕ → Type 0
  Searched Missing low high r =
      IsFound r ⊎ ((r ≡ none) × ((i : ℕ) → low ≤ i → i < high → Missing i))

  abbrev MissedSlot : (bus slot : ℕ) → Type 0
  MissedSlot bus slot = (func : ℕ) → func < 8 → Missed config wanted bus slot func

  abbrev MissedBus : (bus : ℕ) → Type 0
  MissedBus bus = (slot : ℕ) → slot < 32 → MissedSlot bus slot

-- What the search for the device `wanted` says: a configuration address of a function that answers
-- with it, or -1, and then every function is passed over.
abbrev pub Finds : (config : ℕ → ℕ) (wanted result : ℕ) → Type 0
Finds config wanted result =
    ((bus slot func : ℕ) × (bus < 256)
      × (slot < 32)
      × (func < 8)
      × (result ≡ pci_make_configaddr bus slot func)
      × (identity config bus slot func ≡ wanted))
    ⊎ ((result ≡ int_minus_one)
        × ((bus slot func : ℕ)
            → bus < 256
            → slot < 32
            → func < 8
            → Missed config wanted bus slot func))
