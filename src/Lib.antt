-- ===== src/Lib.antt =====
-- Triangle counting on a graph that two parties share (triangle_counting/, debug_files/). The
-- receiver has the edges among its neighbours, the sender the edges of the graph; how many edges
-- they have in common is computed without showing them: cuckoo and simple hashing put equal
-- elements into equal bins, an oblivious pseudorandom function and a key-value store turn each
-- bin into a pair of 128-bit blocks that are equal when the element is shared, the comparison of
-- shared blocks gives bits, and transfers and sums of blocks turn these into the count.
--
-- Block: the 128-bit arithmetic of triangle_counting/circuit_psi.cpp (`unsigned_lessthan`,
--   `add_with_carry`, `invert_block`, `sub_with_borrow`). Block/Sse has the vector instructions.
-- Hashing: Entry is `HashTableEntry` of debug_files/hash_table_entry.h, Cuckoo is `CuckooTable` of
--   triangle_counting/cuckoo_hashing.cpp, Simple is `SimpleTable` of
--   triangle_counting/simple_hashing.cpp. Their operations have the names of the source. A method
--   takes the table and gives the new one, or a fault where it throws, asserts or divides by 0.
--   Cuckoo/Place, Settle, Expected, Progress, Mapped, Find and Census prove what the mapping does, Elements is about the
--   base class's `MapElements`, Addresses is `GetElementAddresses`, Simple/Bins and Simple/Rows prove
--   what the rows hold, Agree how the two tables meet. The hash functions, `HashToPosition` of the base class
--   that is not in the repository, are a parameter: a function from the number of functions and
--   the element to its positions, of which it gives as many as there are functions.
-- Equality: `Equality` of triangle_counting/equality.h. Setup is the constructor, `configure` and
--   the digits, Leaf is `computeLeafOTs`, Traverse is `traverse_and_compute_ANDs`, Compare is
--   `equality_thread`, Threads is `perform_equality`, and Blocks is `perform_block_equality` of
--   triangle_counting/functionalities.cpp. The code of the two parties is one function with a
--   case for each; a message is what the other party's function reads. Oblivious transfer, the bit
--   triples and the packing of bits into bytes come from a library: they are parameters with their
--   documented contracts `Transfers`, `AreTriples` and `Packing`. Arrays are functions from the
--   index, and what new memory holds is a parameter. The build without `WAN_EXEC` is modelled.
--   Doubling is the loop over the levels of the AND trees, of any state. Batch is `BatchEquality`
--   of triangle_counting/batch_equality.h: a transfer carries one bit for each of the three words
--   of a batch. Messages and Extract are about these bits, Places about where the tree keeps its
--   bytes and digits, Level and Tree about the tree, Perform is `perform_batch_equality`.
-- Psi: `psi_ca_receiver` and `psi_ca_sender` of triangle_counting/circuit_psi.cpp. Psi itself is
--   their end, from the blocks of the bins to the sums: the receiver's message pairs
--   (`ot_rounds`), the transfer, which is a parameter with the contract `SendsChosen`, and the two
--   sums. Parties is the whole run of both, from the two vectors of elements to the printed
--   number. Rounds is about the messages, Total about the difference of the sums, Occupied and
--   Cells about the occupied bins, Rows about the sender's keys and values, Shared about the
--   number of shared elements, Intersection and Answer about the whole, under the conditions in
--   Contracts, Sizes about the numbers of bins and elements. `MapElements` of the base class of the tables is a parameter with the
--   contract `MapsElements`, the store of the masked values one with the contract `IsStore`; that
--   no key which only the receiver has decodes to its bin's random block is the condition
--   `NoCollision`. What is read beyond the end of `idxs` is a parameter.
-- Circuit: `run_circuit_psi` of triangle_counting/functionalities.cpp for `PSM1`, both parties from
--   the two vectors of elements to the shares. Places is about where the server finds its keys
--   again, Hint about what the client opens, Answer about the shares of the bins, Keys about the
--   keys of elements, Whole about the run, Sizes about the number of comparisons. The pseudorandom
--   function of the library (`ot_receiver`, `ot_sender`) has the contract `IsOprf`, the generator
--   `PRNG` is a function of the seed and the number of the draw; that no word agrees by accident
--   is the condition `NoAccident`, that keys name elements the condition `AreNamed`. For `PSM2`,
--   Table has the client's table and what both parties do from the two vectors of keys on, Nonces
--   is about the nonces that separate the masks of a bin, Opened about the table, Compared about
--   the comparison, Hidden about the whole from the vectors of keys on, Words about what the client
--   opens. The loop that looks for a nonce runs on the list of the nonces that the generator
--   gives; that the list serves all bins is the condition `Serves`, and `MasksApart` that no masks
--   agree by accident. What is read beyond a row of masks is a parameter.
-- Oprf: debug_files/vole_oprf.hpp. `client1`, `server1` and `evaluate1` are `Client1`, `Server1` and
--   `Evaluate1`; `client` and `evaluate` give rows of bytes. The key-value store (`set_seed`,
--   `solve`, `decode`), the product `mul` of the field and the two parts of the correlation come
--   from a library: they are parameters with the contracts `IsLinear` and `AreCorrelated`. Loop is
--   about the unrolled loops, Bytes about the conversions, Sizes about `setup`, Agree about the
--   two parties' values.
-- Net: the channels. Net itself is `NetIO` of debug_files/stream_channel.hpp: bytes, numbers,
--   blocks and vectors of rows over a stream whose `fwrite` and `fread` return what a list says.
--   Stream is about bytes, Vectors about values. Items has points and big numbers: their encodings
--   are parameters, and a big number has a sign. Sci is `send_data` and `recv_data` of
--   debug_files/net_io_channel.h and Sync its `sync`, as steps of the two parties.
-- Graph: triangle_counting/triangle.h. Graph itself has the table and vector files, a file as the
--   list of its bytes, with the lowest byte of a number first; what is read beyond the end of a
--   file is not determined, and is `none`. RoundTrip is about reading what was written. Request
--   has the neighbours' messages, the server that collects them and the decoding: a connection is
--   an identifier and the bytes sent on it. Served is about the server, Edges about what the two
--   sides then have in common. Random blocks (`prg`, `draw`) and the store are parameters.
-- Common: the names that all modules use. Run is the type of faults, Loops and Fill are counted
--   loops that write arrays, Bits, Places and Masks the laws of bitwise operations and digits.
-- Tests: concrete runs, and the theorems on concrete inputs.
--
-- The remapping loop runs on fuel, two more than its limit. Its counter has 64 bits: with the
-- largest number of 64 bits as the limit the counter never exceeds it and the loop need not end;
-- for every smaller limit the fuel is enough. The loop over the levels of the AND tree doubles its
-- stride and runs on fuel, the number of digits, which is enough since the stride starts at 1 and
-- grows by at least 1.
--
-- Where decoded values do not fit into the vector that the code made for them, and where the bytes
-- of a neighbour's message do not fill whole blocks, the run is a fault.
--
-- The loops of the channels run on the list of what the calls of the stream return; that a list is
-- long enough is a condition on its sum.
--
-- Not modelled: printing and timing; connecting to the other party; debug_files/blake2.h,
-- debug_files/locks.h, debug_files/Timer.h and debug_files/channel.cpp, which are copies of files of
-- other projects; the option parser; the communication counters.
pub mod Common
pub mod Block
pub mod Hashing
pub mod Equality
pub mod Psi
pub mod Circuit
pub mod Oprf
pub mod Net
pub mod Graph
pub mod Tests
