-- ===== src/Tests/OnPublicIp.antt =====
-- The theorem on src/public_ip.c at a concrete input: a resolver that answers at once.
use alarm4pi.Prelude.{ℕ, ◌≡◌, pos, eq_ℤ, true, false, some, [], ◌∷◌, ◌⊎◌}
use alarm4pi.PublicIp.{Resolver, addresses, opendns_name, public_ip_record, get_public_ip}
use alarm4pi.PublicIp.Answer.{IsAsked, get_public_ip-IsAsked}

-- The second address of the name server is the first that is not 0.
abbrev a_resolver : Resolver
a_resolver = record {
  World = ℕ;
  Reply = ℕ;
  Msg = ℕ;
  res_ninit = λ w. (
    some (record {
      res_defnames = true;
      other_options = 0;
      nscount = 1;
      nsaddr_list = 9 ∷ 0 ∷ 0 ∷ [];
    }),
    w,
  );
  getaddrinfo = λ name w. (addresses (0 ∷ 7 ∷ []), w);
  freeaddrinfo = λ w. w;
  res_nquery = λ res_stat domain w. (some 5, w);
  ns_initparse = λ response. some response;
  rcode = λ msg. 0;
  answer_count = λ msg. 1;
  ns_parserr = λ msg. some (1, msg);
  inet_ntoa = λ ip. ip ∷ [];
}

get_public_ip-IsAsked_example :
    ((eq_ℤ (get_public_ip a_resolver [] 1 2 0).0.0 (pos 0) ≡ false)
      × ((get_public_ip a_resolver [] 1 2 0).0.1 ≡ []))
    ⊎ ((ip : ℕ) × ((get_public_ip a_resolver [] 1 2 0).0.1 ≡ ip ∷ [])
        × IsAsked a_resolver opendns_name public_ip_record 2 (a_resolver.res_ninit 0) ip)
get_public_ip-IsAsked_example = get_public_ip-IsAsked a_resolver [] 1 2 0
