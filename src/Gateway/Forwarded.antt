-- ===== src/Gateway/Forwarded.antt =====
-- src/proxy.rs, `apply_forwarded_headers`: the headers that tell a service of its client. `Display` of
-- an address and `to_str` of a header value are arguments; the values that are inserted are valid.
use roused.Base.{
  Bool, true, false, not, ◌||◌, Option, none, some, List, [], ◌∷◌, ◌>>=◌, ◌≡◌, refl, any, arith,
  Bool-cases, inl, inr, if◌then◌else◌,
}
use roused.Base.Text.{Text, codes, text_eq, to_decimal}
use roused.Gateway.{RequestContext}
use roused.Http.{Headers, remove_all}
use roused.Http.Hops.{get_all-insert, get_all-remove_all}
use roused.Net.{IpAddr}

abbrev pub forwarded_names : List Text
forwarded_names =
    codes "forwarded"
    ∷ codes "x-forwarded-for"
    ∷ codes "x-forwarded-host"
    ∷ codes "x-forwarded-port"
    ∷ codes "x-forwarded-prefix"
    ∷ codes "x-forwarded-proto"
    ∷ codes "x-real-ip"
    ∷ []

abbrev pub first : List Text → Option Text
first [] = none
first (v ∷ vs) = some v

abbrev pub shown : (IpAddr → Text) → Option IpAddr → Option Text
shown display none = none
shown display (some ip) = some (display ip)

-- The one value, for the names of the test if it is known; what else there is otherwise.
abbrev pub said_or : Bool → Option Text → List Text → List Text
said_or test none rest = rest
said_or test (some v) rest = if test then v ∷ [] else rest

-- The fields in which a client could claim another origin than it has, as docs/design.md lists them.
abbrev pub claims : List Text
claims =
    codes "x-forwarded-prefix"
    ∷ codes "x-forwarded-port"
    ∷ codes "x-forwarded-host"
    ∷ codes "x-real-ip"
    ∷ codes "x-forwarded-for"
    ∷ codes "x-forwarded-proto"
    ∷ codes "forwarded"
    ∷ []

-- The values of a header `n` after the change: on the plain listener none for those fields; on the TLS
-- listener the port, the `Host`, the address of the peer and the scheme, as far as they are known, and
-- none for the other ones of those fields; the old ones otherwise.
abbrev pub forwarded_of :
    (IpAddr → Text) → RequestContext → Option Text → Text → List Text → List Text
forwarded_of display x host n old =
    let other = if any (text_eq n) claims then [] else old in
    if not x.tls
    then other
    else said_or (text_eq n (codes "x-forwarded-port")) (some (to_decimal x.listener_port)) (
        said_or (text_eq n (codes "x-forwarded-host")) host (
          said_or (text_eq n (codes "x-real-ip") || text_eq n (codes "x-forwarded-for"))
            (shown display x.peer_ip)
            (said_or (text_eq n (codes "x-forwarded-proto")) (some (codes "https")) other)))

either :
    (a b : Bool) (new old : List Text)
    → (if a then new else if b then new else old) ≡ (if a || b then new else old)
either true b new old = refl
either false b new old = refl

module _ {M : Type 0} (headers : Headers M) (to_str : Text → Option Text)
    (display : IpAddr → Text) where
  abbrev set_peer : Option IpAddr → M → M
  set_peer none m = m
  set_peer (some ip) m =
      headers.insert (codes "x-real-ip") (display ip)
        (headers.insert (codes "x-forwarded-for") (display ip) m)

  abbrev set_host : Option Text → M → M
  set_host none m = m
  set_host (some host) m = headers.insert (codes "x-forwarded-host") host m

  -- The `Host` as far as it is text.
  abbrev pub host_of : M → Option Text
  host_of m = do value ← first (headers.get_all (codes "host") m); to_str value

  unfoldable pub apply_forwarded_headers : M → RequestContext → M
  unfolding remove_all
  apply_forwarded_headers m x =
      let cleared = remove_all headers forwarded_names m in
      let peer =
        set_peer x.peer_ip (headers.insert (codes "x-forwarded-proto") (codes "https") cleared) in
      if not x.tls
      then cleared
      else headers.insert (codes "x-forwarded-port") (to_decimal x.listener_port)
          (set_host (host_of peer) peer)

  get_all-set_peer :
      (n : Text) (peer : Option IpAddr) (m : M)
      → headers.get_all n (set_peer peer m)
        ≡ said_or
            (text_eq n (codes "x-real-ip") || text_eq n (codes "x-forwarded-for"))
            (shown display peer)
            (headers.get_all n m)
  get_all-set_peer n none m = refl
  get_all-set_peer n (some ip) m =
      rw
        (
          get_all-insert headers n (codes "x-real-ip") (display ip) _,
          get_all-insert headers n (codes "x-forwarded-for") (display ip) _,
        )
        (either (text_eq n (codes "x-real-ip")) (text_eq n (codes "x-forwarded-for")) _ _)

  get_all-set_host :
      (n : Text) (host : Option Text) (m : M)
      → headers.get_all n (set_host host m)
        ≡ said_or (text_eq n (codes "x-forwarded-host")) host (headers.get_all n m)
  get_all-set_host n none m = refl
  get_all-set_host n (some host) m = get_all-insert headers n (codes "x-forwarded-host") host m

  host_kept :
      (peer : Option IpAddr) (m : M)
      → host_of (
          set_peer peer (
            headers.insert
              (codes "x-forwarded-proto")
              (codes "https")
              (remove_all headers forwarded_names m)))
        ≡ host_of m
  unfolding text_eq
  host_kept none m =
      rw
        (
          get_all-insert headers (codes "host") (codes "x-forwarded-proto") (codes "https") _,
          get_all-remove_all headers (codes "host") forwarded_names m,
        )
        refl
  host_kept (some ip) m =
      rw
        (
          get_all-set_peer (codes "host") (some ip) _,
          get_all-insert headers (codes "host") (codes "x-forwarded-proto") (codes "https") _,
          get_all-remove_all headers (codes "host") forwarded_names m,
        )
        refl

  -- The names that are removed are those fields.
  claims-names :
      (n : Text) (old : List Text)
      → (if any (text_eq n) forwarded_names then [] else old)
        ≡ (if any (text_eq n) claims then [] else old)
  claims-names n old = ground arith

  -- No value of the client gets through in `Forwarded`, `X-Forwarded-For`, `X-Forwarded-Host`,
  -- `X-Forwarded-Port`, `X-Forwarded-Prefix`, `X-Forwarded-Proto` and `X-Real-IP`. On the plain listener
  -- they are taken off. On the TLS listener the service is told the gateway's own view of the connection
  -- instead: `X-Forwarded-Port` is the port, `X-Forwarded-Proto` is https, `X-Forwarded-For` and
  -- `X-Real-IP` are the address of the peer if it is known, and `X-Forwarded-Host` is the first `Host`
  -- if it is text. Every other header, also another `X-Forwarded-` one, is as it was.
  pub apply_forwarded_headers_lem :
      (n : Text) (m : M) (x : RequestContext)
      → headers.get_all n (apply_forwarded_headers m x)
        ≡ forwarded_of display x
            (do value ← first (headers.get_all (codes "host") m); to_str value)
            n
            (headers.get_all n m)
  unfolding apply_forwarded_headers
  apply_forwarded_headers_lem n m x = elim (Bool-cases x.tls) [
    | inl b ↦
        rw
          (
            b,
            host_kept x.peer_ip m,
            get_all-insert headers n (codes "x-forwarded-port") (to_decimal x.listener_port) _,
            get_all-set_host n (host_of m) _,
            get_all-set_peer n x.peer_ip _,
            get_all-insert headers n (codes "x-forwarded-proto") (codes "https") _,
            get_all-remove_all headers n forwarded_names m,
            claims-names n (headers.get_all n m),
          )
          refl
    | inr b ↦
        rw (b, get_all-remove_all headers n forwarded_names m)
          (claims-names n (headers.get_all n m))
  ]
