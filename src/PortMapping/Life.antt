-- ===== src/PortMapping/Life.antt =====
-- src/port_mapping.c as src/alarm4pi.c calls it, lines 129 to 133 and 189 to 191.
use alarm4pi.Prelude.{
  ℕ, zero, suc, ◌+◌, ◌≡◌, refl, ap, ◌∙◌, ℤ, pos, eq_ℤ, Bool, false, Option, none, some, List, [],
  ◌∷◌, arith, inl, inr, Bool-cases, handed, handed_if, if◌then◌else◌,
}
use alarm4pi.CString.{Bytes}
use alarm4pi.PortMapping.{
  Igd, igd_found, no_igd, Mapping, Upnp, UpnpOwnership, port_mappings, PortMapping, is_initialized,
  igd_tried, devices_found, init_upnp, terminate_upnp, add_mappings, add_upnp_mapping,
  print_entries, print_upnp_mapping, delete_mappings, delete_upnp_mapping,
}

-- The start in `main`: NULL is passed for the address, and the mappings are added and printed when it
-- succeeds.
unfoldable pub start_upnp : (lib : Upnp) → ℕ → PortMapping lib → PortMapping lib
start_upnp lib fuel m =
    let ((code, wan), m1) = init_upnp lib none m in
    let (ret_print, m2) = print_upnp_mapping lib fuel (add_upnp_mapping lib m1).1 in
    if eq_ℤ code (pos 0) then m2 else m1

unfoldable pub end_upnp : (lib : Upnp) → PortMapping lib → PortMapping lib
end_upnp lib m = (terminate_upnp lib (delete_upnp_mapping lib m).1).1

module _ (lib : Upnp) (own : UpnpOwnership lib) where
  open lib use {World, Devices}
  open own use {live}

  -- Besides `n` objects the URLs are held, exactly if there is an address.
  abbrev pub IsHeld : ℕ → PortMapping lib → Type 0
  IsHeld n m = live m.world ≡ n + handed_if (is_initialized m.lan_address)

  igd_tried-IsHeld :
      (n : ℕ) (devices : Devices) (wan : Option Bytes) (w : World) (r : Igd × World)
      (m : PortMapping lib)
      → lib.get_valid_igd devices w ≡ r
      → live w ≡ n + 1
      → is_initialized m.lan_address ≡ false
      → IsHeld n (igd_tried lib devices wan r m).1
  unfolding igd_tried
  igd_tried-IsHeld n devices wan w (igd_found address, w1) m e h off =
      let found : (lib.get_valid_igd devices w).0 ≡ igd_found address = ap (λ r. r.0) e in
      let same : live (lib.get_valid_igd devices w).1 ≡ live w1 =
        ap (λ (r : Igd × World). live r.1) e in
      let w2 = (lib.external_address w1).1 in
      rw (own.igd_found_address devices w address found) (
        omega (
          arith,
          same,
          own.igd_found_live devices w address found,
          own.external_address_live w1,
          own.free_devices_live devices w2,
        ))
  igd_tried-IsHeld n devices wan w (no_igd, w1) m e h off =
      let missed : (lib.get_valid_igd devices w).0 ≡ no_igd = ap (λ r. r.0) e in
      let same : live (lib.get_valid_igd devices w).1 ≡ live w1 =
        ap (λ (r : Igd × World). live r.1) e in
      simp off
        (omega (arith, same, own.no_igd_live devices w missed, own.free_devices_live devices w1))

  devices_found-IsHeld :
      (n : ℕ) (wan : Option Bytes) (r : (Option Devices × ℤ) × World) (m : PortMapping lib)
      → live r.1 ≡ n + handed r.0.0
      → is_initialized m.lan_address ≡ false
      → IsHeld n (devices_found lib wan r m).1
  unfolding devices_found
  devices_found-IsHeld n wan ((none, code), w) m h off = simp off h
  devices_found-IsHeld n wan ((some devices, code), w) m h off =
      igd_tried-IsHeld n devices wan w (lib.get_valid_igd devices w) m refl h off

  init_upnp-IsHeld :
      (wan : Option Bytes) (m : PortMapping lib)
      → is_initialized m.lan_address ≡ false
      → IsHeld (live m.world) (init_upnp lib wan m).1
  unfolding init_upnp
  init_upnp-IsHeld wan m off =
      devices_found-IsHeld (live m.world) wan (lib.discover m.world) m (own.discover_live m.world)
        off

  live-add_mappings :
      (rows : List Mapping) (address : Bytes) (code : ℤ) (w : World)
      → live (add_mappings lib rows address code w).1 ≡ live w
  unfolding add_mappings
  live-add_mappings [] address code w = refl
  live-add_mappings (row ∷ rows) address code w =
      let (code1, w1) = lib.add_mapping row address w in
      live-add_mappings rows address code1 w1 ∙ own.add_mapping_live row address w

  live-delete_mappings :
      (rows : List Mapping) (code : ℤ) (w : World)
      → live (delete_mappings lib rows code w).1 ≡ live w
  unfolding delete_mappings
  live-delete_mappings [] code w = refl
  live-delete_mappings (row ∷ rows) code w =
      let (code1, w1) = lib.delete_mapping row w in
      live-delete_mappings rows code1 w1 ∙ own.delete_mapping_live row w

  live-print_entries :
      (fuel index : ℕ) (w : World) → live (print_entries lib fuel index w).1 ≡ live w
  unfolding print_entries
  live-print_entries zero index w = refl
  live-print_entries (suc fuel) index w =
      let (code, w1) = lib.mapping_entry index w in
      ground (arith, live-print_entries fuel (index + 1) w1, own.mapping_entry_live index w)

  add_upnp_mapping-IsHeld :
      (n : ℕ) (m : PortMapping lib) → IsHeld n m → IsHeld n (add_upnp_mapping lib m).1
  unfolding add_upnp_mapping
  add_upnp_mapping-IsHeld n m h = elim (Bool-cases (is_initialized m.lan_address)) [
    | inr off ↦ rw off h
    | inl on ↦ rw on (live-add_mappings port_mappings m.lan_address (pos 0) m.world ∙ h)
  ]

  print_upnp_mapping-IsHeld :
      (n fuel : ℕ) (m : PortMapping lib) → IsHeld n m → IsHeld n (print_upnp_mapping lib fuel m).1
  unfolding print_upnp_mapping
  print_upnp_mapping-IsHeld n fuel m h = elim (Bool-cases (is_initialized m.lan_address)) [
    | inr off ↦ rw off h
    | inl on ↦ rw on (live-print_entries fuel 0 m.world ∙ h)
  ]

  delete_upnp_mapping-IsHeld :
      (n : ℕ) (m : PortMapping lib) → IsHeld n m → IsHeld n (delete_upnp_mapping lib m).1
  unfolding delete_upnp_mapping
  delete_upnp_mapping-IsHeld n m h = elim (Bool-cases (is_initialized m.lan_address)) [
    | inr off ↦ rw off h
    | inl on ↦ rw on (live-delete_mappings port_mappings (pos 0) m.world ∙ h)
  ]

  start_upnp-IsHeld :
      (fuel : ℕ) (m : PortMapping lib)
      → is_initialized m.lan_address ≡ false
      → IsHeld (live m.world) (start_upnp lib fuel m)
  unfolding start_upnp
  start_upnp-IsHeld fuel m off =
      let n = live m.world in
      let r = init_upnp lib none m in
      let held = init_upnp-IsHeld none m off in
      elim (Bool-cases (eq_ℤ r.0.0 (pos 0))) [
        | inr bad ↦ rw bad held
        | inl ok ↦
            let added = (add_upnp_mapping lib r.1).1 in
            rw ok (print_upnp_mapping-IsHeld n fuel added (add_upnp_mapping-IsHeld n r.1 held))
      ]

  terminate_upnp-closes :
      (n : ℕ) (m : PortMapping lib)
      → IsHeld n m
      → (live (terminate_upnp lib m).1.world ≡ n)
        × (is_initialized (terminate_upnp lib m).1.lan_address ≡ false)
  unfolding terminate_upnp
  terminate_upnp-closes n m h = elim (Bool-cases (is_initialized m.lan_address)) [
    | inr off ↦ rw off (h ∙ ap (λ (b : Bool). n + handed_if b) off ∙ omega arith, off)
    | inl on ↦ rw on (omega (arith, own.free_urls_live m.world, ap handed_if on), refl)
  ]

  -- Whatever the network and the router answer: started as `main` does when no address is known, and
  -- ended, the port mapping gives back the list of devices and the URLs that the library handed out,
  -- and it may be started again.
  pub end_upnp_closes_all :
      (fuel : ℕ) (m : PortMapping lib)
      → is_initialized m.lan_address ≡ false
      → (live (end_upnp lib (start_upnp lib fuel m)).world ≡ live m.world)
        × (is_initialized (end_upnp lib (start_upnp lib fuel m)).lan_address ≡ false)
  unfolding end_upnp
  end_upnp_closes_all fuel m off =
      let started = start_upnp lib fuel m in
      terminate_upnp-closes (live m.world) (delete_upnp_mapping lib started).1
        (delete_upnp_mapping-IsHeld (live m.world) started (start_upnp-IsHeld fuel m off))
