-- ===== src/Packet.antt =====
-- `struct packet` of Ex4/kv_shared.h on x86-64: the type at offset 0, the union at offset 8
-- (it holds a uint64_t), and the constants of that header.
use comm_networks_workshop.Base.{
  ℕ, ◌*◌, ◌^◌, ◌<◌, ◌≡◌, refl, Option, none, some, arith, ◌==◌, if◌then◌else◌,
}

pub data Kind : Type 0 where
  eager_get_request eager_get_response eager_set_request : Kind
  rendezvous_get_request rendezvous_get_response : Kind
  rendezvous_set_request rendezvous_set_response : Kind
  close_connection find location : Kind

-- The values that the compiler gives `enum packet_type`.
unfoldable pub code : Kind → ℕ
code eager_get_request = 0
code eager_get_response = 1
code eager_set_request = 2
code rendezvous_get_request = 3
code rendezvous_get_response = 4
code rendezvous_set_request = 5
code rendezvous_set_response = 6
code close_connection = 7
code find = 8
code location = 9

-- The type that a switch sees; `none` goes to the `default` branch.
unfoldable pub kind : ℕ → Option Kind
kind n =
    if n == 0
    then some eager_get_request
    else if n == 1
    then some eager_get_response
    else if n == 2
    then some eager_set_request
    else if n == 3
    then some rendezvous_get_request
    else if n == 4
    then some rendezvous_get_response
    else if n == 5
    then some rendezvous_set_request
    else if n == 6
    then some rendezvous_set_response
    else if n == 7
    then some close_connection
    else if n == 8
    then some find
    else if n == 9
    then some location
    else none

pub kind-code : (k : Kind) → kind (code k) ≡ some k
unfolding kind code
kind-code eager_get_request = refl
kind-code eager_get_response = refl
kind-code eager_set_request = refl
kind-code rendezvous_get_request = refl
kind-code rendezvous_get_response = refl
kind-code rendezvous_set_request = refl
kind-code rendezvous_set_response = refl
kind-code close_connection = refl
kind-code find = refl
kind-code location = refl

pub code-lt : (k : Kind) → code k < 2 ^ 32
unfolding code
code-lt eager_get_request = omega arith
code-lt _ = omega arith

abbrev pub type_at : ℕ
type_at = 0

-- `eager_get_request.key` and `rndv_get_request.key`.
abbrev pub get_key_at : ℕ
get_key_at = 8

-- `value_length` of every packet that has one, `find.num_of_servers`, `location.selected_server`
-- and `close_connection.to_close`.
abbrev pub length_at : ℕ
length_at = 8

-- The bytes behind that word: `eager_get_response.value`, `eager_set_request.key_and_value`,
-- `rndv_set_request.key` and `find.key`.
abbrev pub bytes_at : ℕ
bytes_at = 12

abbrev pub get_ptr_at : ℕ
get_ptr_at = 16

abbrev pub get_rkey_at : ℕ
get_rkey_at = 24

abbrev pub set_ptr_at : ℕ
set_ptr_at = 8

abbrev pub set_rkey_at : ℕ
set_rkey_at = 16

abbrev pub sizeof_packet : ℕ
sizeof_packet = 32

-- `sizeof(response_packet)`, where `response_packet` is a pointer.
abbrev pub sizeof_pointer : ℕ
sizeof_pointer = 8

abbrev pub eager_protocol_limit : ℕ
eager_protocol_limit = 4096

abbrev pub max_test_size : ℕ
max_test_size = 10 * eager_protocol_limit

abbrev pub min_pool_nodes : ℕ
min_pool_nodes = 10
