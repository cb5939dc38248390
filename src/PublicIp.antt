-- ===== src/PublicIp.antt =====
-- src/public_ip.c: the public address, asked of a given name server. An address is the number in
-- `s_addr`; log messages are left out. The resolver of the C library is a parameter.
pub mod Answer
use alarm4pi.Prelude.{
  ℕ, zero, suc, ℤ, pos, negsuc, eq_ℤ, minus_one, Bool, true, false, Option, none, some, List, [],
  ◌∷◌, ◌==◌, if◌then◌else◌, take, drop, ◌++◌, set, length,
}
use alarm4pi.CString.{Bytes, codes}

-- The fields of `struct __res_state` that the code reads or writes: `options`, as whether
-- RES_DEFNAMES is set and the other bits, `nscount`, and the addresses of `nsaddr_list`.
pub record ResState : Type 0 where
  pub res_defnames : Bool
  pub other_options : ℕ
  pub nscount : ℕ
  pub nsaddr_list : List ℕ

-- `getaddrinfo`: the addresses of the list, or the error -(n + 1).
pub data Lookup : Type 0 where
  addresses : List ℕ → Lookup
  lookup_error : ℕ → Lookup

-- `none` is a call that fails. A record is its type and its data as an address.
pub record Resolver : Type 1 where
  pub World : Type 0
  pub Reply : Type 0
  pub Msg : Type 0
  pub res_ninit : World → Option ResState × World
  pub getaddrinfo : Bytes → World → Lookup × World
  pub freeaddrinfo : World → World
  pub res_nquery : ResState → Bytes → World → Option Reply × World
  pub ns_initparse : Reply → Option Msg
  pub rcode : Msg → ℕ
  pub answer_count : Msg → ℕ
  pub ns_parserr : Msg → Option (ℕ × ℕ)
  pub inet_ntoa : ℕ → Bytes

abbrev pub ns_t_a : ℕ
ns_t_a = 1

abbrev pub opendns_name : Bytes
opendns_name = codes "resolver1.opendns.com"

abbrev pub public_ip_record : Bytes
public_ip_record = codes "myip.opendns.com"

-- The `for`: the code, and what is in `*ip_addr`.
unfoldable pub first_address : ℕ → List ℕ → ℤ × ℕ
first_address ip_addr [] = (minus_one, ip_addr)
first_address ip_addr (addr ∷ more) =
    let later = first_address addr more in if addr == 0 then later else (pos 0, addr)

-- Before the query, with the address of the name server.
abbrev pub with_dns : ℕ → ResState → ResState
with_dns dns_ip res_stat = record res_stat {
  res_defnames = false;
  nscount = 1;
  nsaddr_list = set res_stat.nsaddr_list 0 dns_ip;
}

-- Behind the query: the options, the count, and the addresses that were saved.
abbrev pub saved_restored : ResState → ResState → ResState
saved_restored saved res_stat = record {
  res_defnames = saved.res_defnames;
  other_options = saved.other_options;
  nscount = saved.nscount;
  nsaddr_list = take saved.nscount saved.nsaddr_list ++ drop saved.nscount res_stat.nsaddr_list;
}

module _ (lib : Resolver) where
  open lib use {
    World, Reply, Msg, res_ninit, getaddrinfo, freeaddrinfo, res_nquery, ns_initparse, rcode,
    answer_count, ns_parserr, inet_ntoa,
  }

  unfoldable pub address_looked_up : ℕ → Lookup × World → (ℤ × ℕ) × World
  unfolding first_address
  address_looked_up ip_addr (addresses list, w) = (first_address ip_addr list, freeaddrinfo w)
  address_looked_up ip_addr (lookup_error n, w) = ((negsuc n, ip_addr), w)

  unfoldable pub hostname_to_ip : Bytes → ℕ → World → (ℤ × ℕ) × World
  unfolding address_looked_up
  hostname_to_ip hostname ip_addr w = address_looked_up ip_addr (getaddrinfo hostname w)

  -- The code, and what is in `*ip_addr`.
  unfoldable pub record_read : ℕ → Option (ℕ × ℕ) → ℤ × ℕ
  record_read ip_addr none = (minus_one, ip_addr)
  record_read ip_addr (some (resp_type, record_data)) =
      if resp_type == ns_t_a then (pos 0, record_data) else (negsuc 1, ip_addr)

  unfoldable pub message_read : ℕ → Option Msg → ℤ × ℕ
  unfolding record_read
  message_read ip_addr none = (minus_one, ip_addr)
  message_read ip_addr (some msg) =
      if rcode msg == 0
      then (if answer_count msg == 1
          then record_read ip_addr (ns_parserr msg)
          else (minus_one, ip_addr))
      else (negsuc 3, ip_addr)

  unfoldable pub response_read : ℕ → Option Reply → ℤ × ℕ
  unfolding message_read
  response_read ip_addr none = (negsuc 2, ip_addr)
  response_read ip_addr (some response) = message_read ip_addr (ns_initparse response)

  -- From the look-up of the name server on; the state of the resolver is given back with the result.
  unfoldable pub dns_found : Bytes → ℕ → ResState → (ℤ × ℕ) × World → (ℤ × ℕ) × (ResState × World)
  unfolding response_read
  dns_found domain_name ip_addr res_stat ((fn_ret, dns_ip), w) =
      let used = with_dns dns_ip res_stat in
      let (response, w1) = res_nquery used domain_name w in
      if eq_ℤ fn_ret (pos 0)
      then (response_read ip_addr response, (saved_restored res_stat used, w1))
      else ((fn_ret, ip_addr), (res_stat, w))

  unfoldable pub resolver_made : Bytes → Bytes → ℕ → ℕ → Option ResState × World → (ℤ × ℕ) × World
  unfolding dns_found
  resolver_made dns_server domain_name ip_addr dns_ip (none, w) = ((minus_one, ip_addr), w)
  resolver_made dns_server domain_name ip_addr dns_ip (some res_stat, w) =
      let (r, (after, w1)) =
        dns_found domain_name ip_addr res_stat (hostname_to_ip dns_server dns_ip w) in
      (r, w1)

  -- `dns_ip` is a local variable without a value yet.
  unfoldable pub hostname_to_ip_at_dns : Bytes → Bytes → ℕ → ℕ → World → (ℤ × ℕ) × World
  unfolding resolver_made
  hostname_to_ip_at_dns dns_server domain_name ip_addr dns_ip w =
      resolver_made dns_server domain_name ip_addr dns_ip (res_ninit w)

  -- `public_ip_addr` and `dns_ip` are local variables without a value yet.
  unfoldable pub get_public_ip : Bytes → ℕ → ℕ → World → (ℤ × Bytes) × World
  get_public_ip public_ip public_ip_addr dns_ip w =
      let ((fn_ret, ip), w1) =
        hostname_to_ip_at_dns opendns_name public_ip_record public_ip_addr dns_ip w in
      ((fn_ret, if eq_ℤ fn_ret (pos 0) then inet_ntoa ip else public_ip), w1)
