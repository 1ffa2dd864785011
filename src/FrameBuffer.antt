-- ===== src/FrameBuffer.antt =====
-- src/FrameBuffer/FrameBuffer.cc and its header: the VGA text screen. The object carries the video
-- memory, as a function from the index of a cell, and the history of the I/O ports. The cursor's
-- members are `int`s that are never negative. A `char` is its byte.
pub mod Scroll
pub mod Cursor
pub mod Print
pub mod Ports
pub mod View
pub mod Draws
pub mod Line
pub mod Terminal
pub mod Refine
mod Tests
use cosmo.PortIo.{History, outb}
use cosmo.Prelude.{
  ℕ, zero, suc, ◌+◌, ◌-◌, ◌*◌, ◌/◌, ◌%◌, ◌^◌, ◌==◌, ltb, leb, ◌&&◌, Option, none, some, List, [],
  ◌∷◌, if◌then◌else◌, bit_and, bit_or, not32, u8, u16, ℤ, pos, negsuc,
}

pub data FrameBufferColor : Type 0 where
  black blue green cyan red magenta brown light_grey : FrameBufferColor
  dark_grey light_blue light_green light_cyan light_red light_magenta light_brown white :
      FrameBufferColor

-- The value of the enumerator.
abbrev pub color : FrameBufferColor → ℕ
color black = 0
color blue = 1
color green = 2
color cyan = 3
color red = 4
color magenta = 5
color brown = 6
color light_grey = 7
color dark_grey = 8
color light_blue = 9
color light_green = 10
color light_cyan = 11
color light_red = 12
color light_magenta = 13
color light_brown = 14
color white = 15

-- `kNumRows` and `kNumCols`.
abbrev pub num_rows : ℕ
num_rows = 25

abbrev pub num_cols : ℕ
num_cols = 80

-- `FrameBufferIOPort` and `FrameBufferIOCmd`.
abbrev pub command_port : ℕ
command_port = 0x3D4

abbrev pub data_port : ℕ
data_port = 0x3D5

abbrev pub high_byte_command : ℕ
high_byte_command = 14

abbrev pub low_byte_command : ℕ
low_byte_command = 15

pub record FrameBuffer : Type 0 where
  pub video_mem : ℕ → ℕ
  pub attr_byte : ℕ
  pub x : ℕ
  pub y : ℕ
  pub ports : History

abbrev pub update : (ℕ → ℕ) → ℕ → ℕ → ℕ → ℕ
update m i v k = if i == k then v else m k

unfoldable pub set_color : ℕ → ℕ → FrameBuffer → FrameBuffer
set_color fg_color bg_color fb = record fb {
  attr_byte = u8 (bit_or (bg_color * 2 ^ 4) (bit_and fg_color 0x0F));
}

-- The constructor, on the video memory and the ports as they are.
pub construct : ℕ → ℕ → (ℕ → ℕ) → History → FrameBuffer
construct fg_color bg_color m ports =
    set_color fg_color bg_color
      (record { video_mem = m; attr_byte = 0; x = 0; y = 0; ports = ports })

-- A blank with the colours in use.
pub space : FrameBuffer → ℕ
space fb = u16 (bit_or 0x20 (fb.attr_byte * 2 ^ 8))

-- The loop that moves the text up by a line, at cell `i`.
pub shift_up : (ℕ → ℕ) → ℕ → ℕ → ℕ → ℕ
shift_up m i zero = m
shift_up m i (suc left) = shift_up (update m i (m (i + num_cols))) (i + 1) left

-- The loops that fill cells, at cell `i`.
pub fill : ℕ → (ℕ → ℕ) → ℕ → ℕ → ℕ → ℕ
fill v m i zero = m
fill v m i (suc left) = fill v (update m i v) (i + 1) left

pub scroll_screen : FrameBuffer → FrameBuffer
scroll_screen fb = if ltb fb.y num_rows then fb else record fb {
  video_mem =
      fill (space fb) (shift_up fb.video_mem 0 ((num_rows - 1) * num_cols))
        ((num_rows - 1) * num_cols) num_cols;
  y = num_rows - 1;
}

-- Writing the position to the two cursor registers.
unfoldable pub send_position : ℕ → History → History
send_position position h =
    let h₁ = (outb command_port high_byte_command h).1 in
    let h₂ = (outb data_port (bit_and (position / 2 ^ 8) 0x00FF) h₁).1 in
    let h₃ = (outb command_port low_byte_command h₂).1 in
    (outb data_port (bit_and position 0x00FF) h₃).1

unfoldable pub move_cursor : ℤ → ℤ → FrameBuffer → FrameBuffer
move_cursor (negsuc row) col fb = fb
move_cursor (pos row) (negsuc col) fb = fb
move_cursor (pos row) (pos col) fb =
    if ltb row num_rows && ltb col num_cols
    then record fb { y = row; x = col; ports = send_position (u16 (row * num_cols + col)) fb.ports }
    else fb

unfoldable pub clear_screen : FrameBuffer → FrameBuffer
clear_screen fb =
    move_cursor (pos 0) (pos 0)
      (record fb { video_mem = fill (space fb) fb.video_mem 0 (num_rows * num_cols) })

-- `PrintChar` up to the end of its first chain of tests. As a signed `char`, `c >= ' '` holds from
-- 32 to 127.
pub place : ℕ → FrameBuffer → FrameBuffer
place c fb =
    if c == 0x08 && ltb 0 fb.x
    then record fb { x = fb.x - 1 }
    else if c == b'\t'
    then record fb { x = bit_and (fb.x + 4) (not32 3) }
    else if c == b'\r'
    then record fb { x = 0 }
    else if c == b'\n'
    then record fb { x = 0; y = fb.y + 1 }
    else if leb b' ' c && ltb c 128
    then record fb {
      video_mem =
          update fb.video_mem (fb.y * num_cols + fb.x)
            (u16 (bit_or c (u16 (fb.attr_byte * 2 ^ 8))));
      x = fb.x + 1;
    }
    else fb

-- The end of a line.
pub wrap_line : FrameBuffer → FrameBuffer
wrap_line fb = if leb num_cols fb.x then record fb { x = 0; y = fb.y + 1 } else fb

pub print_char : ℕ → FrameBuffer → FrameBuffer
print_char c fb =
    let fb' = scroll_screen (wrap_line (place c fb)) in move_cursor (pos fb'.y) (pos fb'.x) fb'

unfoldable pub print_chars : List ℕ → FrameBuffer → FrameBuffer
print_chars [] fb = fb
print_chars (c ∷ cs) fb = print_chars cs (print_char c fb)

-- `PrintString` on the `len` characters at `str`; `none` is the null pointer.
unfoldable pub print_string : Option (List ℕ) → FrameBuffer → FrameBuffer
unfolding print_chars
print_string none fb = fb
print_string (some str) fb = print_chars str fb
