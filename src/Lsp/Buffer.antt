-- ===== src/Lsp/Buffer.antt =====
-- p1/src/github.com/cmu440/lsp/buffer.go: the buffer of messages. The container/list is a list, and
-- `none` is the nil element that the code would dereference.
use projects.Common.{
  ℕ, ◌+◌, Bool, true, false, Option, none, some, List, [], ◌∷◌, ◌++◌, ltb, leb, ◌==◌, if◌then◌else◌,
  length,
}
use projects.Lsp.Message.{Message}

abbrev pub Buffer : Type 0
Buffer = List Message

abbrev pub new_buffer : Buffer
new_buffer = []

abbrev pub back : Buffer → Option Message
back [] = none
back (m ∷ []) = some m
back (m ∷ n ∷ b) = back (n ∷ b)

-- Before the first element that is not smaller, unless it has the same number. The walk finds one,
-- because the last element is not smaller.
unfoldable pub insert_before : Message → Buffer → Buffer
insert_before val [] = []
insert_before val (e ∷ l) =
    let rest = insert_before val l in
    if leb val.seq_num e.seq_num
    then if ltb val.seq_num e.seq_num then val ∷ e ∷ l else e ∷ l
    else e ∷ rest

abbrev insert_by : Option Message → Message → Buffer → Buffer
insert_by none val l = l ++ val ∷ []
insert_by (some last) val l =
    if ltb last.seq_num val.seq_num then l ++ val ∷ [] else insert_before val l

unfoldable pub insert : Message → Buffer → Buffer
unfolding insert_before
insert val l = insert_by (back l) val l

unfoldable pub remove : Buffer → Option (Message × Buffer)
remove [] = none
remove (e ∷ l) = some (e, l)

unfoldable pub front : Buffer → Option Message
front [] = none
front (e ∷ l) = some e

unfoldable pub delete : ℕ → Buffer → Buffer × Bool
delete del_seq_num [] = ([], false)
delete del_seq_num (e ∷ l) =
    let (rest, found) = delete del_seq_num l in
    if e.seq_num == del_seq_num then (l, true) else (e ∷ rest, found)

-- `e.seq_num < last.seq_num - window_size + 1`, without the difference.
unfoldable pub drop_left : ℕ → ℕ → Buffer → Buffer
drop_left right window_size [] = []
drop_left right window_size (e ∷ l) =
    let rest = drop_left right window_size l in
    if ltb (e.seq_num + window_size) (right + 1) then rest else e ∷ l

abbrev adjust_by : Option Message → ℕ → Buffer → Option Buffer
adjust_by none window_size l = none
adjust_by (some last) window_size l = some (drop_left last.seq_num window_size l)

unfoldable pub adjust_using_window : ℕ → Buffer → Option Buffer
unfolding drop_left
adjust_using_window window_size l = adjust_by (back l) window_size l

unfoldable pub return_all : Buffer → List Message
return_all [] = []
return_all (e ∷ l) = e ∷ return_all l

unfoldable pub len : Buffer → ℕ
len l = length l
