-- ===== src/Utils/Loopback.antt =====
-- nan/utils/loopback.py: which hosts and addresses count as local. Python's address parsers are
-- parameters: `none` stands for the ValueError that they raise.
use nan_itself.Base.{
  ℕ, String, ◌<>◌, ◌≡◌, refl, inl, inr, ◌↔◌, ◌⊎◌, Bool, true, false, ◌&&◌, ◌||◌, Option, none, some,
  arith, if◌then◌else◌, ◌==◌, string_eq, nat_eq, ==_iff, inl, inr,
}
use Prim.Native.Char.{code}
use nan_itself.Base.Text.{strip}

-- What `urlsplit` finds in a text. Reading `port` raises on a malformed authority.
pub record Url : Type 0 where
  pub scheme : String
  pub hostname : Option String
  pub port : Option (Option ℕ)

pub record Parsers : Type 0 where
  pub lower : String → String
  pub ip_is_loopback : String → Option Bool
  pub urlsplit : String → Option Url

-- The `host` and `origin` headers of a request.
pub record Headers : Type 0 where
  pub host : Option String
  pub origin : Option String

abbrev is_bracket : ℕ → Bool
is_bracket c = c == 91 || c == 93

bracket_left : String → String
bracket_left String.[] = ""
bracket_left (String.◌∷◌ c s) =
    let rest = bracket_left s in if is_bracket (code c) then rest else String.◌∷◌ c s

bracket_right : String → String
bracket_right String.[] = ""
bracket_right (String.◌∷◌ c s) =
    let rest = bracket_right s in
    elim rest [
      | String.[] ↦ if is_bracket (code c) then "" else String.◌∷◌ c ""
      | String.◌∷◌ d t ↦ String.◌∷◌ c (String.◌∷◌ d t)
    ]

-- `name.strip("[]")`
unfoldable pub strip_brackets : String → String
unfolding bracket_left bracket_right nat_eq
strip_brackets s = bracket_left (bracket_right s)

module _ (p : Parsers) where
  unfoldable pub is_loopback_host : String → Bool
  unfolding strip_brackets
  is_loopback_host host =
      let name = strip_brackets (p.lower (strip host)) in
      name == "localhost"
      || name == "::1"
      || elim (p.ip_is_loopback name) [ none ↦ false | some b ↦ b ]

  -- A name that is given and is loopback.
  abbrev pub hostname_is_loopback : Option String → Bool
  hostname_is_loopback none = false
  hostname_is_loopback (some host) = is_loopback_host host

  abbrev pub is_http : String → Bool
  is_http scheme = scheme == "http" || scheme == "https"

  unfoldable pub is_loopback_url : String → Option Bool
  is_loopback_url url = elim (p.urlsplit (strip url)) [
    | none ↦ none
    | some parts ↦ some (is_http parts.scheme && hostname_is_loopback parts.hostname)
  ]

  abbrev pub starts_with_slash : String → Bool
  starts_with_slash String.[] = false
  starts_with_slash (String.◌∷◌ c s) = code c == 47

  abbrev pub starts_with_slashes : String → Bool
  starts_with_slashes String.[] = false
  starts_with_slashes (String.◌∷◌ c s) = code c == 47 && starts_with_slash s

  unfoldable pub is_local_asset : String → Option Bool
  is_local_asset value =
      if starts_with_slashes value
      then some false
      else if starts_with_slash value
      then some true
      else is_loopback_url value

  abbrev pub header_text : Option String → String
  header_text none = ""
  header_text (some s) = s

  abbrev host_port_ok : ℕ → Option (Option ℕ) → Bool
  host_port_ok port none = false
  host_port_ok port (some none) = true
  host_port_ok port (some (some n)) = n == port

  abbrev origin_port_ok : ℕ → Option (Option ℕ) → Bool
  origin_port_ok port none = false
  origin_port_ok port (some none) = false
  origin_port_ok port (some (some n)) = n == port

  abbrev origin_allowed : ℕ → Option String → Option Bool
  origin_allowed port none = some true
  origin_allowed port (some origin) = elim (p.urlsplit origin) [
    | none ↦ none
    | some source ↦ some (
        is_http source.scheme
        && hostname_is_loopback source.hostname
        && origin_port_ok port source.port)
  ]

  -- `none` where the code raises: the request fails and is not passed on.
  unfoldable pub entry_allowed : Headers → (port : ℕ) → Option Bool
  entry_allowed headers port = elim (p.urlsplit ("//" <> header_text headers.host)) [
    | none ↦ none
    | some host ↦
        if hostname_is_loopback host.hostname && host_port_ok port host.port
        then origin_allowed port headers.origin
        else some false
  ]

  -- A host's name that is given and that, without brackets and in small letters, is `localhost`,
  -- `::1` or a loopback address.
  abbrev pub IsLocal : Option String → Type 0
  IsLocal name =
      (host : String) × (name ≡ some host)
      × (let n = strip_brackets (p.lower (strip host)) in
          (n ≡ "localhost") ⊎ (n ≡ "::1") ⊎ (p.ip_is_loopback n ≡ some true))

  hostname_is_loopback_iff :
      (name : Option String) → (hostname_is_loopback name ≡ true) ↔ IsLocal name
  unfolding is_loopback_host
  hostname_is_loopback_iff none = (λ h. ground arith, λ h. ground arith)
  hostname_is_loopback_iff (some host) =
      let n = strip_brackets (p.lower (strip host)) in
      (
        λ h. ground (arith, ==_iff n "localhost", ==_iff n "::1"),
        λ h. ground (arith, ==_iff n "localhost", ==_iff n "::1"),
      )

  abbrev pub HasLocalOrigin : Headers → ℕ → Type 0
  HasLocalOrigin headers port =
      (origin : String) × (v : Url) × (headers.origin ≡ some origin)
      × (p.urlsplit origin ≡ some v)
      × ((v.scheme ≡ "http") ⊎ (v.scheme ≡ "https"))
      × IsLocal v.hostname
      × (v.port ≡ some (some port))

  is_none_or : (o : Option String) → (o ≡ none) ⊎ ((s : String) × (o ≡ some s))
  is_none_or none = inl refl
  is_none_or (some s) = inr (s, refl)

  host_of :
      (headers : Headers) (port : ℕ)
      → entry_allowed headers port ≡ some true
      → (u : Url) × (p.urlsplit ("//" <> header_text headers.host) ≡ some u)
        × IsLocal u.hostname
        × ((u.port ≡ some none) ⊎ (u.port ≡ some (some port)))
  unfolding entry_allowed
  host_of headers port h =
      let (u, split, loopback, at_port) : (u : Url) × (p.urlsplit ("//" <> header_text headers.host)
            ≡ some u)
          × (hostname_is_loopback u.hostname ≡ true)
          × ((u.port ≡ some none) ⊎ (u.port ≡ some (some port))) =
        ground arith in
      (u, split, (hostname_is_loopback_iff u.hostname).0 loopback, at_port)

  origin_of :
      (headers : Headers) (port : ℕ)
      → entry_allowed headers port ≡ some true
      → (headers.origin ≡ none) ⊎ HasLocalOrigin headers port
  unfolding entry_allowed
  origin_of headers port h = elim (is_none_or headers.origin) [
    | inl absent ↦ inl absent
    | inr (origin, e) ↦
        let (v, split, scheme, loopback, at_port) : (v : Url) × (p.urlsplit origin ≡ some v)
            × ((v.scheme ≡ "http") ⊎ (v.scheme ≡ "https"))
            × (hostname_is_loopback v.hostname ≡ true)
            × (v.port ≡ some (some port)) =
          ground arith in
        inr (origin, v, e, split, scheme, (hostname_is_loopback_iff v.hostname).0 loopback, at_port)
  ]

  origin_from :
      (headers : Headers) (port : ℕ)
      → (headers.origin ≡ none) ⊎ HasLocalOrigin headers port
      → origin_allowed port headers.origin ≡ some true
  origin_from headers port (inl absent) = rw absent refl
  origin_from headers port (inr (origin, v, e, split, scheme, local, at_port)) =
      let loopback = (hostname_is_loopback_iff v.hostname).1 local in ground arith

  entry_from :
      (headers : Headers) (port : ℕ) (u : Url)
      → (p.urlsplit ("//" <> header_text headers.host) ≡ some u)
      → (hostname_is_loopback u.hostname ≡ true)
      → (u.port ≡ some none) ⊎ (u.port ≡ some (some port))
      → (origin_allowed port headers.origin ≡ some true)
      → entry_allowed headers port ≡ some true
  unfolding entry_allowed
  entry_from headers port u split loopback at_port from = ground arith

  -- A request is admitted exactly if its host reads as a loopback host, with this port or none, and it
  -- comes either with no browser origin or with an origin that is an http or https address of a loopback
  -- host on this port.
  pub entry_allowed-IsLocal :
      (headers : Headers) (port : ℕ)
      → (entry_allowed headers port ≡ some true) ↔ (
          ((u : Url) × (p.urlsplit ("//" <> header_text headers.host) ≡ some u)
            × IsLocal u.hostname
            × ((u.port ≡ some none) ⊎ (u.port ≡ some (some port))))
          × ((headers.origin ≡ none) ⊎ HasLocalOrigin headers port))
  entry_allowed-IsLocal headers port = (
    λ h. (host_of headers port h, origin_of headers port h),
    λ ((u, split, local, at_port), from).
        entry_from headers port u split ((hostname_is_loopback_iff u.hostname).1 local) at_port
          (origin_from headers port from),
  )

  asset_iff :
      (value : String)
      → (is_local_asset value ≡ some true) ↔ (
          (starts_with_slashes value ≡ false)
          × ((starts_with_slash value ≡ true)
              ⊎ ((u : Url) × (p.urlsplit (strip value) ≡ some u)
                  × (is_http u.scheme ≡ true)
                  × (hostname_is_loopback u.hostname ≡ true))))
  unfolding is_local_asset is_loopback_url
  asset_iff value = (λ h. ground arith, λ h. ground arith)

  -- An asset that begins with two slashes, which a browser resolves to a foreign host, is refused;
  -- any other asset passes exactly if it is a path or the address of a loopback host.
  pub is_local_asset_iff :
      (value : String)
      → (is_local_asset value ≡ some true) ↔ (
          (starts_with_slashes value ≡ false)
          × ((starts_with_slash value ≡ true)
              ⊎ ((u : Url) × (p.urlsplit (strip value) ≡ some u)
                  × (is_http u.scheme ≡ true)
                  × IsLocal u.hostname)))
  is_local_asset_iff value = (
    λ h.
        let (one, rest) = (asset_iff value).0 h in
        (
          one,
          elim rest [
            | inl path ↦ inl path
            | inr (u, split, http, loopback) ↦
                inr (u, split, http, (hostname_is_loopback_iff u.hostname).0 loopback)
          ],
        ),
    λ (one, rest). (asset_iff value).1 (
      one,
      elim rest [
        | inl path ↦ inl path
        | inr (u, split, http, local) ↦
            inr (u, split, http, (hostname_is_loopback_iff u.hostname).1 local)
      ],
    ),
  )
