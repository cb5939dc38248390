-- ===== src/PortMapping.antt =====
-- src/port_mapping.c: the ports that the router is asked to forward. `Lan_address` and what belongs to
-- it are the fields of `PortMapping`; log messages are left out. The UPnP library is a parameter.
pub mod Life
use alarm4pi.Prelude.{
  ℕ, zero, suc, ◌+◌, ◌-◌, ◌≡◌, ℤ, pos, negsuc, eq_ℤ, minus_one, Bool, true, false, Option, none,
  some, List, [], ◌∷◌, ◌==◌, if◌then◌else◌, length, handed, handed_if,
}
use alarm4pi.CString.{Bytes, codes}

-- What `UPNP_GetValidIGD` finds: the local address that it writes, when its return is above 0, or
-- nothing to connect to.
pub data Igd : Type 0 where
  igd_found : Bytes → Igd
  no_igd : Igd

-- A row of `Port_mappings` but the address, which is NULL in all of them.
pub record Mapping : Type 0 where
  pub wan_port : Bytes
  pub lan_port : Bytes
  pub protocol : Bytes
  pub description : Bytes

-- `upnpDiscover` gives the list of the devices, or NULL and its error. The calls on the router return
-- a code. `FreeUPNPUrls` frees `Upnp_urls`, which `UPNP_GetValidIGD` fills.
pub record Upnp : Type 1 where
  pub World : Type 0
  pub Devices : Type 0
  pub discover : World → (Option Devices × ℤ) × World
  pub get_valid_igd : Devices → World → Igd × World
  pub external_address : World → Option Bytes × World
  pub free_devices : Devices → World → World
  pub add_mapping : Mapping → Bytes → World → ℤ × World
  pub mapping_entry : ℕ → World → ℤ × World
  pub delete_mapping : Mapping → World → ℤ × World
  pub free_urls : World → World

abbrev pub is_initialized : Bytes → Bool
is_initialized [] = false
is_initialized (c ∷ s) = true

-- The ownership that the library documents, and that it writes an address when it finds a router.
pub record UpnpOwnership (lib : Upnp) : Type 0 where
  pub live : lib.World → ℕ
  pub discover_live :
      (w : lib.World) → live (lib.discover w).1 ≡ live w + handed (lib.discover w).0.0
  pub igd_found_live :
      (d : lib.Devices) (w : lib.World) (address : Bytes)
      → (lib.get_valid_igd d w).0 ≡ igd_found address
      → live (lib.get_valid_igd d w).1 ≡ live w + 1
  pub igd_found_address :
      (d : lib.Devices) (w : lib.World) (address : Bytes)
      → (lib.get_valid_igd d w).0 ≡ igd_found address
      → is_initialized address ≡ true
  pub no_igd_live :
      (d : lib.Devices) (w : lib.World)
      → (lib.get_valid_igd d w).0 ≡ no_igd
      → live (lib.get_valid_igd d w).1 ≡ live w
  pub external_address_live : (w : lib.World) → live (lib.external_address w).1 ≡ live w
  pub free_devices_live :
      (d : lib.Devices) (w : lib.World) → live (lib.free_devices d w) ≡ live w - 1
  pub add_mapping_live :
      (m : Mapping) (a : Bytes) (w : lib.World) → live (lib.add_mapping m a w).1 ≡ live w
  pub mapping_entry_live : (n : ℕ) (w : lib.World) → live (lib.mapping_entry n w).1 ≡ live w
  pub delete_mapping_live : (m : Mapping) (w : lib.World) → live (lib.delete_mapping m w).1 ≡ live w
  pub free_urls_live : (w : lib.World) → live (lib.free_urls w) ≡ live w - 1

-- Port_mappings
abbrev pub port_mappings : List Mapping
port_mappings =
    record {
      wan_port = codes "8008";
      lan_port = codes "8008";
      protocol = codes "TCP";
      description = codes "webcam RPi";
    }
    ∷ []

pub record PortMapping (lib : Upnp) : Type 0 where
  pub lan_address : Bytes
  pub world : lib.World

module _ (lib : Upnp) where
  open lib use {
    World, Devices, discover, get_valid_igd, external_address, free_devices, add_mapping,
    mapping_entry, delete_mapping, free_urls,
  }

  -- The code, and what is in `*wan_address`, if that is not NULL.
  unfoldable pub igd_tried :
      Devices → Option Bytes → Igd × World → PortMapping lib → (ℤ × Option Bytes) × PortMapping lib
  igd_tried devices wan_address (igd_found address, w) m =
      let (wan, w1) = external_address w in
      let text : Bytes = elim wan [ some a ↦ a | none ↦ [] ] in
      (
        (pos 0, elim wan_address [ some old ↦ some text | none ↦ none ]),
        record m { lan_address = address; world = free_devices devices w1 },
      )
  igd_tried devices wan_address (no_igd, w) m =
      ((minus_one, wan_address), record m { world = free_devices devices w })

  unfoldable pub devices_found :
      Option Bytes
      → (Option Devices × ℤ) × World
      → PortMapping lib
      → (ℤ × Option Bytes) × PortMapping lib
  unfolding igd_tried
  devices_found wan_address ((none, fn_error), w) m =
      ((fn_error, wan_address), record m { world = w })
  devices_found wan_address ((some devices, fn_error), w) m =
      igd_tried devices wan_address (get_valid_igd devices w) m

  unfoldable pub init_upnp : Option Bytes → PortMapping lib → (ℤ × Option Bytes) × PortMapping lib
  unfolding devices_found
  init_upnp wan_address m = devices_found wan_address (discover m.world) m

  unfoldable pub terminate_upnp : PortMapping lib → ℤ × PortMapping lib
  terminate_upnp m =
      if is_initialized m.lan_address
      then (pos 0, record m { lan_address = []; world = free_urls m.world })
      else (minus_one, m)

  -- The loop over the rows: the code of the last call.
  unfoldable pub add_mappings : List Mapping → Bytes → ℤ → World → ℤ × World
  add_mappings [] lan_address fn_error w = (fn_error, w)
  add_mappings (row ∷ rows) lan_address fn_error w =
      let (code, w1) = add_mapping row lan_address w in add_mappings rows lan_address code w1

  unfoldable pub add_upnp_mapping : PortMapping lib → ℤ × PortMapping lib
  unfolding add_mappings
  add_upnp_mapping m =
      let (code, w) = add_mappings port_mappings m.lan_address (pos 0) m.world in
      if is_initialized m.lan_address then (code, record m { world = w }) else (minus_one, m)

  -- The loop over the entries of the router, on fuel: `none` is a router that goes on.
  unfoldable pub print_entries : ℕ → ℕ → World → Option ℤ × World
  print_entries zero map_index w = (none, w)
  print_entries (suc fuel) map_index w =
      let (code, w1) = mapping_entry map_index w in
      let later = print_entries fuel (map_index + 1) w1 in
      if eq_ℤ code (pos 0) then later else (some code, w1)

  unfoldable pub print_upnp_mapping : ℕ → PortMapping lib → Option ℤ × PortMapping lib
  unfolding print_entries
  print_upnp_mapping fuel m =
      let (code, w) = print_entries fuel 0 m.world in
      if is_initialized m.lan_address then (code, record m { world = w }) else (some minus_one, m)

  unfoldable pub delete_mappings : List Mapping → ℤ → World → ℤ × World
  delete_mappings [] fn_error w = (fn_error, w)
  delete_mappings (row ∷ rows) fn_error w =
      let (code, w1) = delete_mapping row w in delete_mappings rows code w1

  unfoldable pub delete_upnp_mapping : PortMapping lib → ℤ × PortMapping lib
  unfolding delete_mappings
  delete_upnp_mapping m =
      let (code, w) = delete_mappings port_mappings (pos 0) m.world in
      if is_initialized m.lan_address then (code, record m { world = w }) else (minus_one, m)
