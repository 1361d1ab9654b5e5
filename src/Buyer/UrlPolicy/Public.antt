-- ===== src/Buyer/UrlPolicy/Public.antt =====
-- The start URL of a task leads to public addresses only.
use codex_browser.Prelude.{
  String, true, false, ◌≡◌, ◌≢◌, ◌⊎◌, inl, inr, refl, sym, ap, ◌∙◌, Option, none, some, List, [],
  ◌∷◌, arith, all, any, All, Option-cases, Bool-cases, is_empty, one_of, ends_with, eq_iff, strip,
}
use codex_browser.Buyer.UrlPolicy.{
  SplitResult, IpAddress, PolicyLib, HostResolver, normalize_hostname, has_dot, dangerous_hosts,
  dangerous_host_suffixes, parse_http_url, is_http_url, is_public_ip, is_public_text,
  is_dangerous_hostname, resolves_to_public, is_public_host, validate_start_url,
}

-- An IPv6 address into which an IPv4 address is mapped is public as that one is, any other as itself.
pub data IsPublic (address : IpAddress) : Type 0 where
  as_mapped : address.ipv4_mapped ≡ some true → IsPublic address
  as_itself : address.ipv4_mapped ≡ none → address.is_global ≡ true → IsPublic address

address_lem : (address : IpAddress) → is_public_ip address ≡ true → IsPublic address
unfolding is_public_ip
address_lem address h = elim (Option-cases address.ipv4_mapped) [
  | inl e ↦ as_itself e (ground arith)
  | inr (g, e) ↦ as_mapped (ground arith)
]

scheme_one_of :
    (scheme : String)
    → one_of scheme ("http" ∷ "https" ∷ []) ≡ true
    → (scheme ≡ "http") ⊎ (scheme ≡ "https")
scheme_one_of scheme h = ground (arith, eq_iff "http" scheme, eq_iff "https" scheme)

module _ (L : PolicyLib) where
  -- The text is an address, and a public one.
  abbrev pub IsPublicAddress : String → Type 0
  IsPublicAddress text =
      (address : IpAddress) × (L.ip_address text ≡ some address) × IsPublic address

  -- The host is a public address, or a name whose every address is public, and there is one.
  abbrev pub LeadsToPublic : HostResolver → String → Type 0
  LeadsToPublic resolver host =
      IsPublicAddress host
      ⊎ ((first : String) × (more : List String) × (L.ip_address host ≡ none)
          × (resolver host ≡ some (first ∷ more))
          × All IsPublicAddress (first ∷ more))

  -- Not one of the names of this machine and its networks, nor a name without a dot.
  pub record IsOpenName (host : String) : Type 0 where
    pub filled : is_empty host ≡ false
    pub not_listed : one_of host dangerous_hosts ≡ false
    pub no_suffix : any (ends_with host) dangerous_host_suffixes ≡ false
    pub dotted :
        (has_dot host ≡ true) ⊎ ((address : IpAddress) × (L.ip_address host ≡ some address))

  -- A URL of `http` or `https` with a host, a port in range and no credentials.
  pub record IsHttp (url : String) (parts : SplitResult) (host : String) : Type 0 where
    pub splits : L.urlsplit url ≡ some parts
    pub scheme : (L.lower parts.scheme ≡ "http") ⊎ (L.lower parts.scheme ≡ "https")
    pub named : parts.hostname ≡ some host
    pub no_username : parts.username ≡ none
    pub no_password : parts.password ≡ none
    pub port_ok : parts.port ≢ none
    pub trimmed : strip url ≡ url
    pub filled : is_empty url ≡ false

  public_text-IsPublicAddress :
      (text : String) → is_public_text L text ≡ true → IsPublicAddress text
  unfolding is_public_text
  public_text-IsPublicAddress text h = elim (Option-cases (L.ip_address text)) [
    | inl e ↦ absurd (ground arith)
    | inr (address, e) ↦ (address, e, address_lem address (ground arith))
  ]

  all-IsPublicAddress :
      (texts : List String) → all (is_public_text L) texts ≡ true → All IsPublicAddress texts
  all-IsPublicAddress [] h = tt
  all-IsPublicAddress (text ∷ texts) h =
      (public_text-IsPublicAddress text (ground arith), all-IsPublicAddress texts (ground arith))

  resolves_lem :
      (resolver : HostResolver) (host : String) (answer : Option (List String))
      → resolver host ≡ answer
      → resolves_to_public L resolver host ≡ true
      → (first : String) × (more : List String) × (resolver host ≡ some (first ∷ more))
        × All IsPublicAddress (first ∷ more)
  unfolding resolves_to_public
  resolves_lem resolver host none at h = absurd (ground (arith, at, h))
  resolves_lem resolver host (some []) at h = absurd (ground (arith, at, h))
  resolves_lem resolver host (some (x ∷ xs)) at h =
      (x, xs, at, all-IsPublicAddress (x ∷ xs) (ground (arith, at, h)))

  not_dangerous-IsOpenName :
      (host : String)
      → is_empty host ≡ false
      → is_dangerous_hostname L host ≡ false
      → IsOpenName host
  unfolding is_dangerous_hostname
  not_dangerous-IsOpenName host f h = record {
    filled = f;
    not_listed = ground arith;
    no_suffix = ground arith;
    dotted = elim (Option-cases (L.ip_address host)) [
      | inl e ↦ inl (ground arith)
      | inr (address, e) ↦ inr (address, e)
    ];
  }

  guards_lem :
      (resolver : HostResolver) (hostname : String)
      → is_public_host L resolver hostname ≡ true
      → (is_empty (normalize_hostname L hostname) ≡ false)
        × (is_dangerous_hostname L (normalize_hostname L hostname) ≡ false)
  unfolding is_public_host
  guards_lem resolver hostname h = (ground arith, ground arith)

  literal_lem :
      (resolver : HostResolver) (hostname : String) (address : IpAddress)
      → L.ip_address (normalize_hostname L hostname) ≡ some address
      → is_public_host L resolver hostname ≡ true
      → is_public_ip address ≡ true
  unfolding is_public_host
  literal_lem resolver hostname address e h = ground arith

  name_lem :
      (resolver : HostResolver) (hostname : String)
      → L.ip_address (normalize_hostname L hostname) ≡ none
      → is_public_host L resolver hostname ≡ true
      → resolves_to_public L resolver (normalize_hostname L hostname) ≡ true
  unfolding is_public_host
  name_lem resolver hostname e h = ground arith

  public-LeadsToPublic :
      (resolver : HostResolver) (hostname : String)
      → is_public_host L resolver hostname ≡ true
      → LeadsToPublic resolver (normalize_hostname L hostname)
  public-LeadsToPublic resolver hostname h =
      let host = normalize_hostname L hostname in
      elim (Option-cases (L.ip_address host)) [
        | inr (address, e) ↦
            inl (address, e, address_lem address (literal_lem resolver hostname address e h))
        | inl e ↦
            let (first, more, at, p) =
              resolves_lem resolver host (resolver host) refl (name_lem resolver hostname e h) in
            inr (first, more, e, at, p)
      ]

  public_lem :
      (resolver : HostResolver) (hostname : String)
      → is_public_host L resolver hostname ≡ true
      → IsOpenName (normalize_hostname L hostname)
        × LeadsToPublic resolver (normalize_hostname L hostname)
  public_lem resolver hostname h =
      let guards = guards_lem resolver hostname h in
      (
        not_dangerous-IsOpenName (normalize_hostname L hostname) guards.0 guards.1,
        public-LeadsToPublic resolver hostname h,
      )

  http_scheme :
      (parts : SplitResult)
      → is_http_url L parts ≡ true
      → (L.lower parts.scheme ≡ "http") ⊎ (L.lower parts.scheme ≡ "https")
  unfolding is_http_url
  http_scheme parts h = scheme_one_of (L.lower parts.scheme) (ground arith)

  fields_lem :
      (url host : String) (parts : SplitResult)
      → L.urlsplit url ≡ some parts
      → url ≡ strip url
      → is_empty url ≡ false
      → is_http_url L parts ≡ true
      → parts.hostname ≡ some host
      → IsHttp url parts host
  unfolding is_http_url
  fields_lem url host parts at t f h e = record {
    splits = at;
    scheme = http_scheme parts h;
    named = e;
    no_username = elim (Option-cases parts.username) [
      | inl u ↦ u
      | inr (x, u) ↦ absurd (ground arith)
    ];
    no_password = elim (Option-cases parts.password) [
      | inl u ↦ u
      | inr (x, u) ↦ absurd (ground arith)
    ];
    port_ok = λ p. ground arith;
    trimmed = sym t;
    filled = f;
  }

  parse_lem :
      (url : String) (parts : SplitResult)
      → parse_http_url L url ≡ some parts
      → (L.urlsplit url ≡ some parts)
        × (is_http_url L parts ≡ true)
        × (url ≡ strip url)
        × (is_empty url ≡ false)
  unfolding parse_http_url
  parse_lem url parts h = elim (Option-cases (L.urlsplit url)) [
    | inl e ↦ absurd (ground arith)
    | inr (parts', e) ↦ elim (Bool-cases (is_http_url L parts')) [
      | inr f ↦ absurd (ground arith)
      | inl f ↦
          let same : parts' ≡ parts = ground arith in
          (
            e ∙ ap some same,
            ap (is_http_url L) (sym same) ∙ f,
            ground (arith, eq_iff url (strip url)),
            ground arith,
          )
    ]
  ]

  parse-IsHttp :
      (url : String) (parts : SplitResult)
      → parse_http_url L url ≡ some parts
      → (host : String) × IsHttp url parts host
  unfolding is_http_url
  parse-IsHttp url parts h =
      let (at, http, t, f) = parse_lem url parts h in
      elim (Option-cases parts.hostname) [
        | inl e ↦ absurd (ground (arith, http, e))
        | inr (host, e) ↦ (host, fields_lem url host parts at t f http e)
      ]

  -- A start URL that is accepted is returned as it was sent; the parser gives it the scheme http or
  -- https, a host, a port in range and no credentials; and its host, in lower case and without dots at
  -- its end, is not one of the names of this machine and its networks, and is a public address or a
  -- name that resolves to at least one address and to public ones only.
  pub start_url_public :
      (resolver : HostResolver) (url accepted : String)
      → validate_start_url L resolver url ≡ some accepted
      → (parts : SplitResult) × (host : String) × IsHttp url parts host
        × (url ≡ accepted)
        × IsOpenName (normalize_hostname L host)
        × LeadsToPublic resolver (normalize_hostname L host)
  unfolding validate_start_url
  start_url_public resolver url accepted h = elim (Option-cases (parse_http_url L url)) [
    | inl e ↦ absurd (ground (arith, h, e))
    | inr (parts, e) ↦
        let (host, http) = parse-IsHttp url parts e in
        let named = http.named in
        let found = public_lem resolver host (ground (arith, h, e, named)) in
        (parts, host, http, ground (arith, h, e), found.0, found.1)
  ]
