-- ===== src/PublicIp/Answer.antt =====
-- What `get_public_ip` of src/public_ip.c takes for the public address.
use alarm4pi.Prelude.{
  eq_ℤ→pos, ℕ, ℤ, pos, eq_ℤ, ◌≡◌, ◌≢◌, refl, ap, ◌∙◌, true, false, Option, none, some, List, [],
  ◌∷◌, ◌==◌, arith, inl, inr, ◌⊎◌, Bool-cases,
}
use alarm4pi.CString.{Bytes}
use alarm4pi.PublicIp.{
  ResState, Lookup, addresses, lookup_error, Resolver, ns_t_a, opendns_name, public_ip_record,
  first_address, with_dns, address_looked_up, hostname_to_ip, record_read, message_read,
  response_read, dns_found, resolver_made, hostname_to_ip_at_dns, get_public_ip,
}

first_address_found :
    (ip_addr : ℕ) (list : List ℕ)
    → eq_ℤ (first_address ip_addr list).0 (pos 0) ≡ true
    → (first_address ip_addr list).1 ≢ 0
unfolding first_address
first_address_found ip_addr [] h = absurd (cc h)
first_address_found ip_addr (addr ∷ more) h = elim (Bool-cases (addr == 0)) [
  | inl z ↦ rw (z, first_address) (first_address_found addr more (rw (z, first_address) at h))
  | inr n ↦ rw (n, first_address) (ground arith)
]

module _ (lib : Resolver) where
  open lib use {World, Reply, Msg}

  address_looked_up-found :
      (ip_addr : ℕ) (r : Lookup × World)
      → eq_ℤ (address_looked_up lib ip_addr r).0.0 (pos 0) ≡ true
      → (address_looked_up lib ip_addr r).0.1 ≢ 0
  unfolding address_looked_up
  address_looked_up-found ip_addr (addresses list, w) h = first_address_found ip_addr list h
  address_looked_up-found ip_addr (lookup_error n, w) h = absurd (cc h)

  hostname_to_ip-valid :
      (dns_server : Bytes) (dns_ip : ℕ) (w : World)
      → eq_ℤ (hostname_to_ip lib dns_server dns_ip w).0.0 (pos 0) ≡ true
      → (hostname_to_ip lib dns_server dns_ip w).0.1 ≢ 0
  unfolding hostname_to_ip
  hostname_to_ip-valid dns_server dns_ip w h =
      address_looked_up-found dns_ip (lib.getaddrinfo dns_server w) h

  -- The message reports no error, and its only answer is an A record of the address.
  abbrev pub IsOnlyRecord : Msg → ℕ → Type 0
  IsOnlyRecord msg ip =
      (lib.rcode msg ≡ 0) × (lib.answer_count msg ≡ 1) × (lib.ns_parserr msg ≡ some (ns_t_a, ip))

  abbrev pub IsRead : Reply → ℕ → Type 0
  IsRead response ip = (msg : Msg) × (lib.ns_initparse response ≡ some msg) × IsOnlyRecord msg ip

  record_read-found :
      (ip_addr : ℕ) (r : Option (ℕ × ℕ))
      → eq_ℤ (record_read lib ip_addr r).0 (pos 0) ≡ true
      → r ≡ some (ns_t_a, (record_read lib ip_addr r).1)
  unfolding record_read
  record_read-found ip_addr none h = absurd (cc h)
  record_read-found ip_addr (some (resp_type, d)) h = elim (Bool-cases (resp_type == ns_t_a)) [
    | inl a ↦ rw a (ap (λ (t : ℕ). some (t, d)) (ground arith))
    | inr n ↦ absurd (ground arith)
  ]

  message_read-found :
      (ip_addr : ℕ) (r : Option Msg)
      → eq_ℤ (message_read lib ip_addr r).0 (pos 0) ≡ true
      → (msg : Msg) × (r ≡ some msg) × IsOnlyRecord msg (message_read lib ip_addr r).1
  unfolding message_read
  message_read-found ip_addr none h = absurd (cc h)
  message_read-found ip_addr (some msg) h = elim (Bool-cases (lib.rcode msg == 0)) [
    | inr bad ↦ absurd (ground arith)
    | inl fine ↦ elim (Bool-cases (lib.answer_count msg == 1)) [
      | inr bad ↦ absurd (ground arith)
      | inl one ↦
          rw (fine, one)
            (
              msg,
              refl,
              (
                ground arith,
                ground arith,
                record_read-found ip_addr (lib.ns_parserr msg) (rw (fine, one) at h),
              ),
            )
    ]
  ]

  response_read-found :
      (ip_addr : ℕ) (r : Option Reply)
      → eq_ℤ (response_read lib ip_addr r).0 (pos 0) ≡ true
      → (response : Reply) × (r ≡ some response) × IsRead response (response_read lib ip_addr r).1
  unfolding response_read
  response_read-found ip_addr none h = absurd (cc h)
  response_read-found ip_addr (some response) h =
      (response, refl, message_read-found ip_addr (lib.ns_initparse response) h)

  -- The only name server asked for the domain is the one named, and this is its answer.
  abbrev pub IsAsked : Bytes → Bytes → ℕ → Option ResState × World → ℕ → Type 0
  IsAsked dns_server domain_name dns_ip made ip =
      (res_stat : ResState) × (server : ℕ) × (w1 : World) × (response : Reply) × (made.0
        ≡ some res_stat)
      × (hostname_to_ip lib dns_server dns_ip made.1 ≡ ((pos 0, server), w1))
      × (server ≢ 0)
      × ((lib.res_nquery (with_dns server res_stat) domain_name w1).0 ≡ some response)
      × IsRead response ip

  dns_found-IsAsked :
      (dns_server domain_name : Bytes) (ip_addr dns_ip : ℕ) (res_stat : ResState) (w : World)
      (found : (ℤ × ℕ) × World)
      → hostname_to_ip lib dns_server dns_ip w ≡ found
      → (eq_ℤ found.0.0 (pos 0) ≡ true → found.0.1 ≢ 0)
      → eq_ℤ (dns_found lib domain_name ip_addr res_stat found).0.0 (pos 0) ≡ true
      → IsAsked dns_server domain_name dns_ip
          (some res_stat, w)
          (dns_found lib domain_name ip_addr res_stat found).0.1
  unfolding dns_found
  dns_found-IsAsked dns_server domain ip_addr dns_ip res_stat w ((fn_ret, server), w1) e valid h =
      elim (Bool-cases (eq_ℤ fn_ret (pos 0))) [
        | inr bad ↦ absurd (cc (bad, rw bad at h))
        | inl ok ↦
            let (response, q, r) =
              response_read-found ip_addr (lib.res_nquery (with_dns server res_stat) domain w1).0
                (rw ok at h) in
            rw ok (
              res_stat,
              server,
              w1,
              response,
              refl,
              e ∙ ap (λ c. ((c, server), w1)) (eq_ℤ→pos fn_ret 0 ok),
              valid ok,
              q,
              r,
            )
      ]

  resolver_made-IsAsked :
      (dns_server domain_name : Bytes) (ip_addr dns_ip : ℕ) (made : Option ResState × World)
      → eq_ℤ (resolver_made lib dns_server domain_name ip_addr dns_ip made).0.0 (pos 0) ≡ true
      → IsAsked dns_server domain_name dns_ip made
          (resolver_made lib dns_server domain_name ip_addr dns_ip made).0.1
  unfolding resolver_made
  resolver_made-IsAsked dns_server domain ip_addr dns_ip (none, w) h = absurd (cc h)
  resolver_made-IsAsked dns_server domain ip_addr dns_ip (some res_stat, w) h =
      dns_found-IsAsked dns_server domain ip_addr dns_ip res_stat w
        (hostname_to_ip lib dns_server dns_ip w) refl (hostname_to_ip-valid dns_server dns_ip w) h

  -- Either `get_public_ip` fails and leaves the text alone, or the text is of an address for which all
  -- this holds: the name server of OpenDNS has an address, which is not 0; it alone is asked for the
  -- record, with no default domain; and its response reports no error and has exactly one answer, an A
  -- record with the address.
  pub get_public_ip-IsAsked :
      (public_ip : Bytes) (public_ip_addr dns_ip : ℕ) (w : World)
      → ((eq_ℤ (get_public_ip lib public_ip public_ip_addr dns_ip w).0.0 (pos 0) ≡ false)
          × ((get_public_ip lib public_ip public_ip_addr dns_ip w).0.1 ≡ public_ip))
        ⊎ ((ip : ℕ) × ((get_public_ip lib public_ip public_ip_addr dns_ip w).0.1 ≡ lib.inet_ntoa ip)
            × IsAsked opendns_name public_ip_record dns_ip (lib.res_ninit w) ip)
  unfolding get_public_ip hostname_to_ip_at_dns
  get_public_ip-IsAsked text ip_addr dns_ip w =
      let made = lib.res_ninit w in
      let r = resolver_made lib opendns_name public_ip_record ip_addr dns_ip made in
      elim (Bool-cases (eq_ℤ r.0.0 (pos 0))) [
        | inr bad ↦ rw bad (inl (refl, refl))
        | inl ok ↦ rw ok (
            inr (
              r.0.1,
              refl,
              resolver_made-IsAsked opendns_name public_ip_record ip_addr dns_ip made ok,
            ))
      ]
