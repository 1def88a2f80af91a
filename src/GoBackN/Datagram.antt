-- ===== src/GoBackN/Datagram.antt =====
-- A4/Part3: `Packet`, `serializePacket` and `deserializePacket`, which HostA.cpp, HostB.cpp and
-- Router.cpp repeat word for word, and the socket calls on `Node::buffer`.
-- An int is its 32-bit pattern, stored low byte first. A memory is the list of the bytes from
-- `Node::buffer` on: the 1536 of the array, and what the object holds behind it.
pub mod Wire
use computer_network_course.Prelude.{
  ℕ, ◌+◌, ◌*◌, ◌/◌, ◌%◌, ◌^◌, List, [], ◌∷◌, ◌++◌, length, take, drop,
}

-- `BUFFER_SIZE`.
abbrev pub buffer_size : ℕ
buffer_size = 1536

abbrev pub sizeof_int : ℕ
sizeof_int = 4

abbrev pub Bytes : Type 0
Bytes = List ℕ

pub record Packet : Type 0 where
  pub source_id : ℕ
  pub seq_num : ℕ
  pub message : Bytes

-- The bytes of an int, and the int of four bytes.
pub int_bytes : ℕ → Bytes
int_bytes n = (n % 256) ∷ (n / 256 % 256) ∷ (n / 2 ^ 16 % 256) ∷ (n / 2 ^ 24 % 256) ∷ []

pub bytes_int : Bytes → ℕ
bytes_int [] = 0
bytes_int (b ∷ bs) = b + 256 * bytes_int bs

-- memcpy(memory + offset, source, n).
pub memcpy : ℕ → Bytes → ℕ → Bytes → Bytes
memcpy offset source n memory = take offset memory ++ take n source ++ drop (offset + n) memory

unfoldable pub serialize_packet : Packet → Bytes → Bytes
unfolding memcpy int_bytes
serialize_packet p memory =
    let one = memcpy 0 (int_bytes p.source_id) sizeof_int memory in
    let two = memcpy sizeof_int (int_bytes p.seq_num) sizeof_int one in
    memcpy (sizeof_int + sizeof_int) p.message buffer_size two

unfoldable pub deserialize_packet : Bytes → Packet
unfolding bytes_int
deserialize_packet memory = record {
  source_id = bytes_int (take sizeof_int memory);
  seq_num = bytes_int (take sizeof_int (drop sizeof_int memory));
  message = take buffer_size (drop (sizeof_int + sizeof_int) memory);
}

-- sendto(sockfd, buffer, sizeof(buffer), …): the datagram.
unfoldable pub sendto : Bytes → Bytes
sendto memory = take buffer_size memory

-- recvfrom(sockfd, buffer, BUFFER_SIZE, …): the memory with the datagram in it.
unfoldable pub recvfrom : Bytes → Bytes → Bytes
recvfrom datagram memory =
    let bytes = take buffer_size datagram in bytes ++ drop (length bytes) memory
