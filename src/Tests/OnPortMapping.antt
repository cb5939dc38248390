-- ===== src/Tests/OnPortMapping.antt =====
-- The theorem on src/port_mapping.c at a concrete input: a router with two entries.
use alarm4pi.Prelude.{
  ℕ, ◌+◌, ◌-◌, ◌≡◌, refl, ap, sym, pos, minus_one, false, some, [], ltb, if◌then◌else◌,
}
use alarm4pi.CString.{Bytes, codes}
use alarm4pi.PortMapping.{Upnp, UpnpOwnership, Igd, igd_found, no_igd, is_initialized}
use alarm4pi.PortMapping.Life.{start_upnp, end_upnp, end_upnp_closes_all}

abbrev a_router : Upnp
a_router = record {
  World = ℕ;
  Devices = Unit;
  discover = λ w. ((some tt, pos 0), w + 1);
  get_valid_igd = λ devices w. (igd_found (codes "10.0.0.2"), w + 1);
  external_address = λ w. (some (codes "1.2.3.4"), w);
  free_devices = λ devices w. w - 1;
  add_mapping = λ row address w. (pos 0, w);
  mapping_entry = λ n w. (if ltb n 2 then pos 0 else minus_one, w);
  delete_mapping = λ row w. (pos 0, w);
  free_urls = λ w. w - 1;
}

abbrev found_address : Igd → Bytes
found_address (igd_found address) = address
found_address no_igd = []

abbrev a_router_own : UpnpOwnership a_router
a_router_own = record {
  live = λ w. w;
  discover_live = λ w. refl;
  igd_found_live = λ d w address e. refl;
  igd_found_address = λ d w address e. ap is_initialized (ap found_address (sym e));
  no_igd_live = λ d w e. absurd (cc e);
  external_address_live = λ w. refl;
  free_devices_live = λ d w. refl;
  add_mapping_live = λ m a w. refl;
  mapping_entry_live = λ n w. refl;
  delete_mapping_live = λ m w. refl;
  free_urls_live = λ w. refl;
}

end_upnp_closes_all_example :
    ((end_upnp a_router (start_upnp a_router 5 (record { lan_address = []; world = 3 }))).world ≡ 3)
    × (is_initialized
          (end_upnp a_router
            (start_upnp a_router 5 (record { lan_address = []; world = 3 }))).lan_address
        ≡ false)
end_upnp_closes_all_example =
    end_upnp_closes_all a_router a_router_own 5 (record { lan_address = []; world = 3 }) refl
