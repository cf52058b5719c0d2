-- ===== src/Http2/Hpack/HuffmanTable.antt =====
-- The Huffman code of src/http/hpack.cpp (RFC 7541, appendix B): code and number of bits for each
-- byte, and for the end of the string.
use async_net.Base.{ℕ, List, [], ◌∷◌}

-- `struct huff_sym`
pub record HuffSym : Type 0 where
  pub code : ℕ
  pub bits : ℕ

abbrev pub huff_entry : ℕ → ℕ → HuffSym
huff_entry code bits = record { code = code; bits = bits }

-- `HUFF`
unfoldable pub huff : List HuffSym
huff =
    huff_entry 0x1ff8 13
    ∷ huff_entry 0x7fffd8 23
    ∷ huff_entry 0xfffffe2 28
    ∷ huff_entry 0xfffffe3 28
    ∷ huff_entry 0xfffffe4 28
    ∷ huff_entry 0xfffffe5 28
    ∷ huff_entry 0xfffffe6 28
    ∷ huff_entry 0xfffffe7 28
    ∷ huff_entry 0xfffffe8 28
    ∷ huff_entry 0xffffea 24
    ∷ huff_entry 0x3ffffffc 30
    ∷ huff_entry 0xfffffe9 28
    ∷ huff_entry 0xfffffea 28
    ∷ huff_entry 0x3ffffffd 30
    ∷ huff_entry 0xfffffeb 28
    ∷ huff_entry 0xfffffec 28
    ∷ huff_entry 0xfffffed 28
    ∷ huff_entry 0xfffffee 28
    ∷ huff_entry 0xfffffef 28
    ∷ huff_entry 0xffffff0 28
    ∷ huff_entry 0xffffff1 28
    ∷ huff_entry 0xffffff2 28
    ∷ huff_entry 0x3ffffffe 30
    ∷ huff_entry 0xffffff3 28
    ∷ huff_entry 0xffffff4 28
    ∷ huff_entry 0xffffff5 28
    ∷ huff_entry 0xffffff6 28
    ∷ huff_entry 0xffffff7 28
    ∷ huff_entry 0xffffff8 28
    ∷ huff_entry 0xffffff9 28
    ∷ huff_entry 0xffffffa 28
    ∷ huff_entry 0xffffffb 28
    ∷ huff_entry 0x14 6
    ∷ huff_entry 0x3f8 10
    ∷ huff_entry 0x3f9 10
    ∷ huff_entry 0xffa 12
    ∷ huff_entry 0x1ff9 13
    ∷ huff_entry 0x15 6
    ∷ huff_entry 0xf8 8
    ∷ huff_entry 0x7fa 11
    ∷ huff_entry 0x3fa 10
    ∷ huff_entry 0x3fb 10
    ∷ huff_entry 0xf9 8
    ∷ huff_entry 0x7fb 11
    ∷ huff_entry 0xfa 8
    ∷ huff_entry 0x16 6
    ∷ huff_entry 0x17 6
    ∷ huff_entry 0x18 6
    ∷ huff_entry 0x0 5
    ∷ huff_entry 0x1 5
    ∷ huff_entry 0x2 5
    ∷ huff_entry 0x19 6
    ∷ huff_entry 0x1a 6
    ∷ huff_entry 0x1b 6
    ∷ huff_entry 0x1c 6
    ∷ huff_entry 0x1d 6
    ∷ huff_entry 0x1e 6
    ∷ huff_entry 0x1f 6
    ∷ huff_entry 0x5c 7
    ∷ huff_entry 0xfb 8
    ∷ huff_entry 0x7ffc 15
    ∷ huff_entry 0x20 6
    ∷ huff_entry 0xffb 12
    ∷ huff_entry 0x3fc 10
    ∷ huff_entry 0x1ffa 13
    ∷ huff_entry 0x21 6
    ∷ huff_entry 0x5d 7
    ∷ huff_entry 0x5e 7
    ∷ huff_entry 0x5f 7
    ∷ huff_entry 0x60 7
    ∷ huff_entry 0x61 7
    ∷ huff_entry 0x62 7
    ∷ huff_entry 0x63 7
    ∷ huff_entry 0x64 7
    ∷ huff_entry 0x65 7
    ∷ huff_entry 0x66 7
    ∷ huff_entry 0x67 7
    ∷ huff_entry 0x68 7
    ∷ huff_entry 0x69 7
    ∷ huff_entry 0x6a 7
    ∷ huff_entry 0x6b 7
    ∷ huff_entry 0x6c 7
    ∷ huff_entry 0x6d 7
    ∷ huff_entry 0x6e 7
    ∷ huff_entry 0x6f 7
    ∷ huff_entry 0x70 7
    ∷ huff_entry 0x71 7
    ∷ huff_entry 0x72 7
    ∷ huff_entry 0xfc 8
    ∷ huff_entry 0x73 7
    ∷ huff_entry 0xfd 8
    ∷ huff_entry 0x1ffb 13
    ∷ huff_entry 0x7fff0 19
    ∷ huff_entry 0x1ffc 13
    ∷ huff_entry 0x3ffc 14
    ∷ huff_entry 0x22 6
    ∷ huff_entry 0x7ffd 15
    ∷ huff_entry 0x3 5
    ∷ huff_entry 0x23 6
    ∷ huff_entry 0x4 5
    ∷ huff_entry 0x24 6
    ∷ huff_entry 0x5 5
    ∷ huff_entry 0x25 6
    ∷ huff_entry 0x26 6
    ∷ huff_entry 0x27 6
    ∷ huff_entry 0x6 5
    ∷ huff_entry 0x74 7
    ∷ huff_entry 0x75 7
    ∷ huff_entry 0x28 6
    ∷ huff_entry 0x29 6
    ∷ huff_entry 0x2a 6
    ∷ huff_entry 0x7 5
    ∷ huff_entry 0x2b 6
    ∷ huff_entry 0x76 7
    ∷ huff_entry 0x2c 6
    ∷ huff_entry 0x8 5
    ∷ huff_entry 0x9 5
    ∷ huff_entry 0x2d 6
    ∷ huff_entry 0x77 7
    ∷ huff_entry 0x78 7
    ∷ huff_entry 0x79 7
    ∷ huff_entry 0x7a 7
    ∷ huff_entry 0x7b 7
    ∷ huff_entry 0x7fffe 19
    ∷ huff_entry 0x7fc 11
    ∷ huff_entry 0x3ffd 14
    ∷ huff_entry 0x1ffd 13
    ∷ huff_entry 0xffffffc 28
    ∷ huff_entry 0xfffe6 20
    ∷ huff_entry 0x3fffd2 22
    ∷ huff_entry 0xfffe7 20
    ∷ huff_entry 0xfffe8 20
    ∷ huff_entry 0x3fffd3 22
    ∷ huff_entry 0x3fffd4 22
    ∷ huff_entry 0x3fffd5 22
    ∷ huff_entry 0x7fffd9 23
    ∷ huff_entry 0x3fffd6 22
    ∷ huff_entry 0x7fffda 23
    ∷ huff_entry 0x7fffdb 23
    ∷ huff_entry 0x7fffdc 23
    ∷ huff_entry 0x7fffdd 23
    ∷ huff_entry 0x7fffde 23
    ∷ huff_entry 0xffffeb 24
    ∷ huff_entry 0x7fffdf 23
    ∷ huff_entry 0xffffec 24
    ∷ huff_entry 0xffffed 24
    ∷ huff_entry 0x3fffd7 22
    ∷ huff_entry 0x7fffe0 23
    ∷ huff_entry 0xffffee 24
    ∷ huff_entry 0x7fffe1 23
    ∷ huff_entry 0x7fffe2 23
    ∷ huff_entry 0x7fffe3 23
    ∷ huff_entry 0x7fffe4 23
    ∷ huff_entry 0x1fffdc 21
    ∷ huff_entry 0x3fffd8 22
    ∷ huff_entry 0x7fffe5 23
    ∷ huff_entry 0x3fffd9 22
    ∷ huff_entry 0x7fffe6 23
    ∷ huff_entry 0x7fffe7 23
    ∷ huff_entry 0xffffef 24
    ∷ huff_entry 0x3fffda 22
    ∷ huff_entry 0x1fffdd 21
    ∷ huff_entry 0xfffe9 20
    ∷ huff_entry 0x3fffdb 22
    ∷ huff_entry 0x3fffdc 22
    ∷ huff_entry 0x7fffe8 23
    ∷ huff_entry 0x7fffe9 23
    ∷ huff_entry 0x1fffde 21
    ∷ huff_entry 0x7fffea 23
    ∷ huff_entry 0x3fffdd 22
    ∷ huff_entry 0x3fffde 22
    ∷ huff_entry 0xfffff0 24
    ∷ huff_entry 0x1fffdf 21
    ∷ huff_entry 0x3fffdf 22
    ∷ huff_entry 0x7fffeb 23
    ∷ huff_entry 0x7fffec 23
    ∷ huff_entry 0x1fffe0 21
    ∷ huff_entry 0x1fffe1 21
    ∷ huff_entry 0x3fffe0 22
    ∷ huff_entry 0x1fffe2 21
    ∷ huff_entry 0x7fffed 23
    ∷ huff_entry 0x3fffe1 22
    ∷ huff_entry 0x7fffee 23
    ∷ huff_entry 0x7fffef 23
    ∷ huff_entry 0xfffea 20
    ∷ huff_entry 0x3fffe2 22
    ∷ huff_entry 0x3fffe3 22
    ∷ huff_entry 0x3fffe4 22
    ∷ huff_entry 0x7ffff0 23
    ∷ huff_entry 0x3fffe5 22
    ∷ huff_entry 0x3fffe6 22
    ∷ huff_entry 0x7ffff1 23
    ∷ huff_entry 0x3ffffe0 26
    ∷ huff_entry 0x3ffffe1 26
    ∷ huff_entry 0xfffeb 20
    ∷ huff_entry 0x7fff1 19
    ∷ huff_entry 0x3fffe7 22
    ∷ huff_entry 0x7ffff2 23
    ∷ huff_entry 0x3fffe8 22
    ∷ huff_entry 0x1ffffec 25
    ∷ huff_entry 0x3ffffe2 26
    ∷ huff_entry 0x3ffffe3 26
    ∷ huff_entry 0x3ffffe4 26
    ∷ huff_entry 0x7ffffde 27
    ∷ huff_entry 0x7ffffdf 27
    ∷ huff_entry 0x3ffffe5 26
    ∷ huff_entry 0xfffff1 24
    ∷ huff_entry 0x1ffffed 25
    ∷ huff_entry 0x7fff2 19
    ∷ huff_entry 0x1fffe3 21
    ∷ huff_entry 0x3ffffe6 26
    ∷ huff_entry 0x7ffffe0 27
    ∷ huff_entry 0x7ffffe1 27
    ∷ huff_entry 0x3ffffe7 26
    ∷ huff_entry 0x7ffffe2 27
    ∷ huff_entry 0xfffff2 24
    ∷ huff_entry 0x1fffe4 21
    ∷ huff_entry 0x1fffe5 21
    ∷ huff_entry 0x3ffffe8 26
    ∷ huff_entry 0x3ffffe9 26
    ∷ huff_entry 0xffffffd 28
    ∷ huff_entry 0x7ffffe3 27
    ∷ huff_entry 0x7ffffe4 27
    ∷ huff_entry 0x7ffffe5 27
    ∷ huff_entry 0xfffec 20
    ∷ huff_entry 0xfffff3 24
    ∷ huff_entry 0xfffed 20
    ∷ huff_entry 0x1fffe6 21
    ∷ huff_entry 0x3fffe9 22
    ∷ huff_entry 0x1fffe7 21
    ∷ huff_entry 0x1fffe8 21
    ∷ huff_entry 0x7ffff3 23
    ∷ huff_entry 0x3fffea 22
    ∷ huff_entry 0x3fffeb 22
    ∷ huff_entry 0x1ffffee 25
    ∷ huff_entry 0x1ffffef 25
    ∷ huff_entry 0xfffff4 24
    ∷ huff_entry 0xfffff5 24
    ∷ huff_entry 0x3ffffea 26
    ∷ huff_entry 0x7ffff4 23
    ∷ huff_entry 0x3ffffeb 26
    ∷ huff_entry 0x7ffffe6 27
    ∷ huff_entry 0x3ffffec 26
    ∷ huff_entry 0x3ffffed 26
    ∷ huff_entry 0x7ffffe7 27
    ∷ huff_entry 0x7ffffe8 27
    ∷ huff_entry 0x7ffffe9 27
    ∷ huff_entry 0x7ffffea 27
    ∷ huff_entry 0x7ffffeb 27
    ∷ huff_entry 0xffffffe 28
    ∷ huff_entry 0x7ffffec 27
    ∷ huff_entry 0x7ffffed 27
    ∷ huff_entry 0x7ffffee 27
    ∷ huff_entry 0x7ffffef 27
    ∷ huff_entry 0x7fffff0 27
    ∷ huff_entry 0x3ffffee 26
    ∷ huff_entry 0x3fffffff 30
    ∷ []
