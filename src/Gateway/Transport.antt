-- ===== src/Gateway/Transport.antt =====
-- src/proxy.rs, `request_transport`: what the gateway learns of a connection from the digest that pingora
-- keeps of it.
use roused.Base.{ℕ, Bool, false, Option, none, some, List}
use roused.Gateway.{Request}
use roused.Base.Text.{Text}
use roused.Net.{IpAddr, SocketAddr}

-- `pingora`'s socket address: of the internet, or of another kind.
pub data SocketAddress : Type 0 where
  inet : SocketAddr → SocketAddress
  unix : SocketAddress

pub record SocketDigest : Type 0 where
  pub local_addr : Option SocketAddress
  pub peer_addr : Option SocketAddress

pub record Digest : Type 0 where
  pub socket_digest : Option SocketDigest
  pub is_ssl : Bool

abbrev as_inet : Option SocketAddress → Option SocketAddr
as_inet (some (inet a)) = some a
as_inet (some unix) = none
as_inet none = none

abbrev port_of : Option SocketAddr → Option ℕ
port_of (some a) = some a.port
port_of none = none

abbrev ip_of : Option SocketAddr → Option IpAddr
ip_of (some a) = some a.ip
ip_of none = none

abbrev local_of : Option SocketDigest → Option SocketAddress
local_of (some socket) = socket.local_addr
local_of none = none

abbrev peer_of : Option SocketDigest → Option SocketAddress
peer_of (some socket) = socket.peer_addr
peer_of none = none

unfoldable pub request_transport : Option Digest → Option ℕ × Bool × Option IpAddr
request_transport none = (none, false, none)
request_transport (some digest) = (
  port_of (as_inet (local_of digest.socket_digest)),
  digest.is_ssl,
  ip_of (as_inet (peer_of digest.socket_digest)),
)

-- The request that the callbacks read, of a connection with this digest.
unfoldable pub request_of : Bool → (Text → List Text) → Option Digest → Request
unfolding request_transport
request_of is_http_11 get_all digest =
    let (local_port, tls, peer_ip) = request_transport digest in
    record {
      is_http_11 = is_http_11;
      get_all = get_all;
      local_port = local_port;
      tls = tls;
      peer_ip = peer_ip;
    }
