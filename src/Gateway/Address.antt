-- ===== src/Gateway/Address.antt =====
-- Which address `client_ip` of src/app/deps.py answers.
use model_lib.Base.{
  ℕ, ◌+◌, ◌-◌, ◌≡◌, refl, Option, some, List, [], ◌∷◌, ◌++◌, arith, if◌then◌else◌, length,
}
use model_lib.Base.Text.{Text}
use model_lib.Gateway.Caller.{
  GatewaySettings, client_ip, client_hop, nth_or, own_hops, forwarded_hops, forwarded_client,
}

nth_or_append :
    (default c : Text) (before own : List Text) (n : ℕ)
    → n ≡ length before
    → nth_or default n (before ++ (c ∷ own)) ≡ c
unfolding nth_or
nth_or_append default c [] own n h = rw h refl
nth_or_append default c (b ∷ before) own n h =
    rw h (nth_or_append default c before own (length before) refl)

length-append : (xs ys : List Text) → length (xs ++ ys) ≡ length xs + length ys
length-append [] ys = omega arith
length-append (x ∷ xs) ys = omega (arith, length-append xs ys)

index_of :
    (before own : List Text) (c : Text) (n : ℕ)
    → length own ≡ n
    → length (before ++ (c ∷ own)) - n - 1 ≡ length before
index_of before own c n h = grind (arith, length-append before (c ∷ own))

-- Behind a trusted proxy, the address is the entry of X-Forwarded-For that has as many entries
-- to its right as there are own hops, whatever stands to its left; a peer that is no trusted
-- proxy is the address itself, whatever the headers say.
pub client_ip_lem :
    (settings : GatewaySettings) (peer c : Text) (forwarded_for real_ip : Option Text)
    (before own : List Text)
    → length own ≡ own_hops settings.trusted_proxy_hop_count
    → forwarded_hops forwarded_for ≡ before ++ (c ∷ own)
    → client_ip settings (some peer) forwarded_for real_ip
      ≡ some (if settings.is_trusted_proxy peer then c else peer)
unfolding client_ip forwarded_client client_hop
client_ip_lem settings peer c forwarded_for real_ip [] own n h = grind (
  arith,
  nth_or_append c c [] own (length (c ∷ own) - own_hops settings.trusted_proxy_hop_count - 1)
      (index_of [] own c _ n),
)
client_ip_lem settings peer c forwarded_for real_ip (b ∷ before) own n h = grind (
  arith,
  nth_or_append b c (b ∷ before) own
      (length (b ∷ (before ++ (c ∷ own))) - own_hops settings.trusted_proxy_hop_count - 1)
      (index_of (b ∷ before) own c _ n),
)
