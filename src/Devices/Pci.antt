-- ===== src/Devices/Pci.antt =====
-- k-hardware.c: the search for a PCI device, `poweroff` and `reboot`. Both end in an endless loop,
-- `poweroff` behind a message on the console; the accesses before it are what they return.
pub mod Search
use weensy_osvm.Base.{
  ℕ, zero, suc, ◌+◌, ◌-◌, ◌*◌, ◌^◌, ◌&&◌, ◌==◌, ltb, if◌then◌else◌, Option, none, some, bit_and,
  bit_or,
}
use weensy_osvm.X86.{u32, int_minus_one}
use weensy_osvm.Devices.{Trace, Device, outb, outw, outl, inl}

unfoldable pub pci_make_configaddr : (bus slot func : ℕ) → ℕ
pci_make_configaddr bus slot func = bit_or (bit_or (bus * 2 ^ 16) (slot * 2 ^ 11)) (func * 2 ^ 8)

abbrev pub pci_host_bridge_config_addr : ℕ
pci_host_bridge_config_addr = 0xCF8

abbrev pub pci_host_bridge_config_data : ℕ
pci_host_bridge_config_data = 0xCFC

-- `return` from the inner loops, or the next round.
unfoldable pub or_next : Option ℕ × Trace → Option ℕ × Trace → Option ℕ × Trace
or_next (some configaddr, t) next = (some configaddr, t)
or_next (none, t) next = next

unfoldable pub found_or_minus_one : Option ℕ × Trace → ℕ × Trace
found_or_minus_one (some configaddr, t) = (configaddr, t)
found_or_minus_one (none, t) = (int_minus_one, t)

-- `pm_io_base` and the write of `suspend enable`
abbrev pub enable_suspend : ℕ × Trace → Trace
enable_suspend (base, t) = outw (bit_and base 0xFFC0 + 4) 0x2000 t

module _ (device : Device) where
  unfoldable pub pci_config_readl : (configaddr offset : ℕ) → Trace → ℕ × Trace
  pci_config_readl configaddr offset t =
      inl device pci_host_bridge_config_data
        (outl pci_host_bridge_config_addr (bit_or (bit_or 0x80000000 configaddr) offset) t)

  -- The loop over the functions of a slot, with `n` left; `wanted` is vendor | (device << 16).
  unfoldable pub functions_loop : (wanted bus slot n func : ℕ) → Trace → Option ℕ × Trace
  functions_loop wanted bus slot zero func t = (none, t)
  functions_loop wanted bus slot (suc n) func t =
      let configaddr = pci_make_configaddr bus slot func in
      let vendor_device = pci_config_readl configaddr 0 t in
      let rest = functions_loop wanted bus slot n (func + 1) vendor_device.1 in
      if vendor_device.0 == wanted
      then (some configaddr, vendor_device.1)
      else if vendor_device.0 == 2 ^ 32 - 1 && func == 0
      then (none, vendor_device.1)
      else rest

  unfoldable pub slots_loop : (wanted bus n slot : ℕ) → Trace → Option ℕ × Trace
  slots_loop wanted bus zero slot t = (none, t)
  slots_loop wanted bus (suc n) slot t =
      let here = functions_loop wanted bus slot 8 0 t in
      or_next here (slots_loop wanted bus n (slot + 1) here.1)

  unfoldable pub buses_loop : (wanted n bus : ℕ) → Trace → Option ℕ × Trace
  buses_loop wanted zero bus t = (none, t)
  buses_loop wanted (suc n) bus t =
      let here = slots_loop wanted bus 32 0 t in or_next here (buses_loop wanted n (bus + 1) here.1)

  unfoldable pub pci_find_device : (vendor device_id : ℕ) → Trace → ℕ × Trace
  pci_find_device vendor device_id t =
      found_or_minus_one (buses_loop (u32 (bit_or vendor (device_id * 2 ^ 16))) 256 0 t)

  unfoldable pub suspend : ℕ × Trace → Trace
  unfolding pci_config_readl
  suspend (configaddr, t) =
      if ltb configaddr (2 ^ 31) then enable_suspend (pci_config_readl configaddr 0x40 t) else t

  unfoldable pub poweroff : Trace → Trace
  poweroff t = suspend (pci_find_device 0x8086 0x7113 t)

abbrev pub reboot : Trace → Trace
reboot t = outb 0x92 3 t
