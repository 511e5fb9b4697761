-- ===== src/Memory/Tests.antt =====
-- Runs of the memory map and of the plain memory, and their theorems at concrete places.
use openrisc_tools.Prelude.{◌*◌, ◌/◌, ◌^◌, ◌≡◌, refl, true, false, none, some, inl, arith, IfOr}
use openrisc_tools.Machine.{Memory, Area}
use openrisc_tools.Sample.{sample, two_areas}
use openrisc_tools.Memory.Areas.{
  bit_mask, bit_mask_loop, find_area, reg_mem_area, register_memoryarea_mask, verify_memoryarea,
}
use openrisc_tools.Memory.Ram.{byte_place, simmem_read8, simmem_write32}
use openrisc_tools.Memory.Access.{
  Width, bits, Bus, cut, current, lookup, evalsim_mem, setsim_mem, readfunc, writefunc,
}
use openrisc_tools.Memory.Device.{ram_bus, simmem_read, simmem_write, set_ram}
use openrisc_tools.Memory.Flat.{byte_at, OwnDevices}
use openrisc_tools.Memory.Stored.{bytes, setsim_mem_lem, evalsim_mem-setsim_mem}
use openrisc_tools.Memory.Map.{IsMapped, verify_memoryarea_lem}
use openrisc_tools.Memory.Overlaps.{meets_any}
use openrisc_tools.Memory.Registered.{IsRegistered, reg_mem_area_lem}
use openrisc_tools.Memory.Words.{store_be, simmem_write32_lem}

pub two_areas-IsMapped : IsMapped two_areas
two_areas-IsMapped = record {
  areas = (
    record {
      log2 = 16;
      place = 0;
      fits = omega arith;
      sized = refl;
      masked = refl;
      offsets = refl;
      aligned = refl;
      below = omega arith;
      usable = refl;
    },
    (
      record {
        log2 = 16;
        place = 4;
        fits = omega arith;
        sized = refl;
        masked = refl;
        offsets = refl;
        aligned = refl;
        below = omega arith;
        usable = refl;
      },
      tt,
    ),
  );
  apart = ((inl (omega arith), tt), (tt, tt));
}

verify_memoryarea_lem_example :
    (verify_memoryarea 0x4_0010 two_areas).cur_area ≡ find_area 0x4_0010 two_areas.dev_list 0
verify_memoryarea_lem_example =
    verify_memoryarea_lem 0x4_0010 two_areas (omega arith) two_areas-IsMapped

reg_mem_area_lem_example :
    IfOr
      (meets_any (0x9000_0000 / 2 ^ 3 * 2 ^ 3) (2 ^ 3) two_areas.dev_list)
      (reg_mem_area 0x9000_0000 8 false 2 1 1 two_areas ≡ none)
      ((mem' : Memory) × (reg_mem_area 0x9000_0000 8 false 2 1 1 two_areas ≡ some mem')
        × IsRegistered 3 0x9000_0000 2 1 1 two_areas mem')
reg_mem_area_lem_example =
    reg_mem_area_lem 3 0x9000_0000 8 false 2 1 1 two_areas (omega arith) (omega arith) (omega arith)
      (omega arith) (omega arith) two_areas-IsMapped

-- An area across the first 64 KB is refused.
overlap : reg_mem_area 0x100 16 false 2 1 1 two_areas ≡ none
unfolding reg_mem_area bit_mask bit_mask_loop register_memoryarea_mask
overlap = refl

simmem_write32_lem_example :
    simmem_read8 0x102 (simmem_write32 0x100 0x1122_3344 (λ a. 0))
    ≡ store_be 4 0x100 0x1122_3344 (λ y. simmem_read8 y (λ a. 0)) 0x102
simmem_write32_lem_example = simmem_write32_lem 0x100 0x1122_3344 0x102 (λ a. 0) (omega arith) refl

third_byte : simmem_read8 0x102 (simmem_write32 0x100 0x1122_3344 (λ a. 0)) ≡ 0x33
unfolding simmem_read8 simmem_write32 byte_place
third_byte = refl

abbrev pub plain : Bus
plain = ram_bus (λ d. 1) (λ d. 1)

abbrev pub low_area : Area
low_area = record {
  addr_mask = 0xffff_0000;
  addr_compare = 0;
  size = 0x1_0000;
  size_mask = 0xffff;
  valid = true;
  delayr = 1;
  delayw = 2;
  device = 0;
}

pub two_areas-OwnDevices : OwnDevices two_areas.dev_list
two_areas-OwnDevices = (((λ e. omega (arith, e)), tt), (tt, tt))

setsim_mem_lem_example :
    byte_at (setsim_mem plain Width.half 0x102 0x102 0xbeef sample).mem 0x103
    ≡ store_be (bytes Width.half) 0x102 (cut Width.half 0xbeef) (byte_at two_areas) 0x103
unfolding bits
setsim_mem_lem_example =
    setsim_mem_lem (λ d. 1) (λ d. 1) Width.half 0x102 0x102 0xbeef 0 low_area sample (omega arith)
      refl two_areas-IsMapped two_areas-OwnDevices refl refl (omega arith) (omega arith) 0x103
      (omega arith)

evalsim_mem-setsim_mem_example :
    (evalsim_mem plain Width.byte 0x7 0 (setsim_mem plain Width.byte 0x7 0 0x1ff sample)).1
    ≡ cut Width.byte 0x1ff
unfolding bits
evalsim_mem-setsim_mem_example =
    evalsim_mem-setsim_mem (λ d. 1) (λ d. 1) Width.byte 0x7 0 0x1ff 0 low_area sample (omega arith)
      refl two_areas-IsMapped two_areas-OwnDevices refl refl (omega arith) (omega arith) 0
      (omega arith)

loaded :
    (evalsim_mem plain Width.byte 0x103 0
      (setsim_mem plain Width.word 0x100 0 0x1122_3344 sample)).1
    ≡ 0x44
unfolding evalsim_mem setsim_mem ram_bus readfunc writefunc current lookup verify_memoryarea set_ram
    simmem_read simmem_read8 simmem_write simmem_write32 byte_place cut
loaded = refl
