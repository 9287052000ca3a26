-- ===== src/Vault/Prefixes.antt =====
-- Placeholders of which one starts with the other (packages/sdk/src/vault/resolver.ts).
use Prim.Native.Char.{Char, code}
use lupid_sdk.Prelude.{
  ℕ, ◌-◌, String, Bool, true, false, ◌||◌, Option, none, some, [], ◌∷◌, ◌≡◌, refl, sym, ap, ◌∙◌,
  arith, eqb,
}
use lupid_sdk.Pii.Path.{text_length}
use lupid_sdk.Pii.Path.RoundTrip.{joined}
use lupid_sdk.Vault.{
  after, replaced, placeholder_prefix, includes, leases, Cache, resolve_placeholder, resolve_header,
  resolve_leases,
}

after-joined : (p s : String) → after p (joined p s) ≡ some s
unfolding after
after-joined String.[] s = refl
after-joined (String.◌∷◌ c p) s = ground (arith, after-joined p s)

skip_all :
    (ph secret p s : String)
    → replaced ph secret (text_length p) (joined p s) ≡ replaced ph secret 0 s
unfolding replaced
skip_all ph secret String.[] s = refl
skip_all ph secret (String.◌∷◌ c p) s = skip_all ph secret p s

joined_assoc : (a b s : String) → joined (joined a b) s ≡ joined a (joined b s)
joined_assoc String.[] b s = refl
joined_assoc (String.◌∷◌ c a) b s = ap (String.◌∷◌ c) (joined_assoc a b s)

replaced-joined :
    (c : Char) (p secret s : String)
    → replaced (String.◌∷◌ c p) secret 0 (joined (String.◌∷◌ c p) s)
      ≡ joined secret (replaced (String.◌∷◌ c p) secret 0 s)
unfolding replaced
replaced-joined c p secret s =
    let found = after-joined (String.◌∷◌ c p) s in
    let skipped = skip_all (String.◌∷◌ c p) secret p s in
    let pred : text_length (String.◌∷◌ c p) - 1 ≡ text_length p = omega arith in
    ground (arith, found, skipped, pred)

abbrev pub placeholder : String → String
placeholder lease = joined placeholder_prefix lease

-- Whether a text has a character of a code.
unfoldable pub has_code : ℕ → String → Bool
has_code n String.[] = false
has_code n (String.◌∷◌ c s) = eqb (code c) n || has_code n s

has_code-joined : (n : ℕ) (s t : String) → has_code n (joined s t) ≡ has_code n s || has_code n t
unfolding has_code
has_code-joined n String.[] t = refl
has_code-joined n (String.◌∷◌ c s) t = ground (arith, has_code-joined n s t)

-- A text without a code of the pattern does not start with it, and nothing in it is replaced.
after-none : (n : ℕ) (p s : String) → has_code n p ≡ true → has_code n s ≡ false → after p s ≡ none
unfolding after has_code
after-none n String.[] s there not_there = absurd (ground arith)
after-none n (String.◌∷◌ c p) String.[] there not_there = refl
after-none n (String.◌∷◌ c p) (String.◌∷◌ d s) there not_there =
    ground (arith, after-none n p s, there, not_there)

replaced-none :
    (n : ℕ) (p secret s : String)
    → has_code n p ≡ true
    → has_code n s ≡ false
    → replaced p secret 0 s ≡ s
unfolding replaced has_code
replaced-none n p secret String.[] there not_there = refl
replaced-none n p secret (String.◌∷◌ c s) there not_there =
    let off = after-none n p (String.◌∷◌ c s) there (unfold has_code in not_there) in
    let rest = replaced-none n p secret s there (ground (arith, not_there)) in
    ground (arith, off, rest)

-- A text in which no match can start is passed over.
replaced-skips :
    (p secret s t : String)
    → has_code b'a' s ≡ false
    → replaced (String.◌∷◌ "a" p) secret 0 (joined s t)
      ≡ joined s (replaced (String.◌∷◌ "a" p) secret 0 t)
unfolding replaced has_code after
replaced-skips p secret String.[] t off = refl
replaced-skips p secret (String.◌∷◌ c s) t off = ground (arith, off, replaced-skips p secret s t)

placeholder_has_colon : (lease : String) → has_code b':' (placeholder lease) ≡ true
unfolding has_code
placeholder_has_colon lease = refl

includes-placeholder :
    (lease s : String) → includes placeholder_prefix (joined (placeholder lease) s) ≡ true
unfolding includes
includes-placeholder lease s =
    let found = after-joined placeholder_prefix (joined lease s) in
    let same = joined_assoc placeholder_prefix lease s in ground (arith, found, same)

-- A header with two leases that both resolve.
two_resolved :
    (central : String → Option String) (ttl now : ℕ) (one two v mid out s1 s2 : String)
    (cache c1 c2 : Cache)
    → includes placeholder_prefix v ≡ true
    → leases 0 v ≡ one ∷ two ∷ []
    → resolve_placeholder central ttl now one cache ≡ some (c1, s1)
    → resolve_placeholder central ttl now two c1 ≡ some (c2, s2)
    → replaced (placeholder one) s1 0 v ≡ mid
    → replaced (placeholder two) s2 0 mid ≡ out
    → resolve_header central ttl now v cache ≡ some (c2, out)
unfolding resolve_header resolve_leases
two_resolved central ttl now one two v mid out s1 s2 cache c1 c2 there found first second at_first
      at_second =
    ground (arith, there, found, first, second, at_first, at_second)

module _ (lease rest sep secret : String) where
  -- Both placeholders, the shorter first.
  abbrev pub both : String
  both = joined (placeholder lease) (joined sep (placeholder (joined lease rest)))

  -- Both replaced by the secret of the shorter.
  abbrev pub cut : String
  cut = joined secret (joined sep (joined secret rest))

  first_replaced :
      has_code b'a' sep ≡ false
      → has_code b':' rest ≡ false
      → replaced (placeholder lease) secret 0 both ≡ cut
  first_replaced plain no_colon =
      let ph = placeholder lease in
      let p : String = joined "gentum://SECRET/" lease in
      let longer = placeholder (joined lease rest) in
      let apart : longer ≡ joined ph rest =
        ap (λ x. x) (sym (joined_assoc placeholder_prefix lease rest)) in
      let left = replaced-none b':' ph secret rest (placeholder_has_colon lease) no_colon in
      let at_longer : replaced ph secret 0 longer ≡ joined secret rest =
        ap (replaced ph secret 0) apart
        ∙ replaced-joined "a" p secret rest
        ∙ ap (joined secret) left in
      replaced-joined "a" p secret (joined sep longer)
      ∙ ap (joined secret) (replaced-skips p secret sep longer plain ∙ ap (joined sep) at_longer)

  cut_has_no_colon :
      has_code b':' sep ≡ false
      → has_code b':' secret ≡ false
      → has_code b':' rest ≡ false
      → has_code b':' cut ≡ false
  cut_has_no_colon s1 s2 s3 = ground (
    arith,
    s1,
    s2,
    s3,
    has_code-joined b':' secret (joined sep (joined secret rest)),
    has_code-joined b':' sep (joined secret rest),
    has_code-joined b':' secret rest,
  )

  -- Where a header is two placeholders and a text between them, and the lease of the second starts with
  -- that of the first, the header that the resolver gives has the first secret in both places, followed
  -- the second time by the rest of the second lease, and nothing of the second secret, although it was
  -- resolved: for any such leases that resolve, any secret and end of a lease without a colon, and any
  -- text without a colon or an `a` between them.
  pub longer_lease_is_lost :
      (central : String → Option String) (ttl now : ℕ) (other : String) (cache c1 c2 : Cache)
      → resolve_placeholder central ttl now lease cache ≡ some (c1, secret)
      → resolve_placeholder central ttl now (joined lease rest) c1 ≡ some (c2, other)
      → leases 0 both ≡ lease ∷ joined lease rest ∷ []
      → has_code b'a' sep ≡ false
      → has_code b':' sep ≡ false
      → has_code b':' secret ≡ false
      → has_code b':' rest ≡ false
      → resolve_header central ttl now both cache ≡ some (c2, cut)
  longer_lease_is_lost central ttl now other cache c1 c2 first second found plain s1 s2 s3 =
      let at_first = first_replaced plain s3 in
      let longer = placeholder (joined lease rest) in
      let at_second =
        replaced-none b':' longer other cut (placeholder_has_colon (joined lease rest))
          (cut_has_no_colon s1 s2 s3) in
      two_resolved central ttl now lease (joined lease rest) both cut cut secret other cache c1 c2
        (includes-placeholder lease (joined sep longer)) found first second at_first at_second
