-- ===== src/Tests/Str.antt =====
-- Copies and strings in a memory that holds its addresses.
use hyu_ele.Base.{◌≡◌, ◌↔◌}
use hyu_ele.Base.Int.{pos}
use hyu_ele.Str.{Memory, memmove, strncmp, text}
use hyu_ele.Str.Move.{moved, memmove-moved}
use hyu_ele.Str.Name.{strncmp-text}

abbrev memory : Memory
memory a = a

-- Bytes 4 to 9, copied two bytes up.
memmove-moved_example : memmove 6 4 6 memory 9 ≡ moved 6 4 6 memory 9
memmove-moved_example = memmove-moved 6 4 6 memory 9

strncmp-text_example :
    (strncmp 14 memory 1 memory 2 ≡ pos 0) ↔ (text 14 memory 1 ≡ text 14 memory 2)
strncmp-text_example = strncmp-text 14 memory 1 memory 2
