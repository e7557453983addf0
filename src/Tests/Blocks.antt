-- ===== src/Tests/Blocks.antt =====
-- The block arithmetic of triangle_counting/circuit_psi.cpp on concrete blocks.
use sectric.Common.{◌+◌, ◌-◌, ◌%◌, ◌^◌, ◌≡◌, arith}
use sectric.Block.{add_with_carry, sub_with_borrow}
use sectric.Block.Sse.{Block, IsBlock, make_block}
use sectric.Block.Arith.{value, add_with_carry_lem, sub_with_borrow_lem}

abbrev full : Block
full = make_block 3 (2 ^ 64 - 1)

abbrev two : Block
two = make_block 0 2

add_with_carry_example :
    IsBlock (add_with_carry full two)
    × (value (add_with_carry full two) ≡ (value full + value two) % 2 ^ 128)
add_with_carry_example = add_with_carry_lem full two (omega arith) (omega arith)

sub_with_borrow_example :
    IsBlock (sub_with_borrow two full)
    × (value (sub_with_borrow two full) ≡ (value two + 2 ^ 128 - value full) % 2 ^ 128)
sub_with_borrow_example = sub_with_borrow_lem two full (omega arith) (omega arith)
