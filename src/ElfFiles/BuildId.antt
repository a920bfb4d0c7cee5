-- ===== src/ElfFiles/BuildId.antt =====
-- `get_elf_build_id_from_elf` of src/elf/elf.c: the build id from the notes of a file. What libelf
-- reads, the sections and the headers of the notes, is an argument.
use profiling.Prelude.{
  ℕ, zero, suc, ◌+◌, ◌-◌, ◌*◌, ◌/◌, ◌%◌, ◌^◌, Bool, false, ◌&&◌, ◌||◌, Option, none, some, List, [],
  ◌∷◌, ltb, ◌==◌, if◌then◌else◌, length, take, drop,
}
use profiling.CString.{CString, text, same}

-- `GElf_Nhdr`, three words of 32 bits.
pub record NoteHeader : Type 0 where
  pub n_namesz : ℕ
  pub n_descsz : ℕ
  pub n_type : ℕ

-- The data of a section: its bytes, and what `gelf_getnote` reads at an offset.
pub record NoteData : Type 0 where
  pub d_buf : List ℕ
  pub getnote : ℕ → Option NoteHeader

-- `none` is a name that is NULL, data that there is not.
pub record NoteSection : Type 0 where
  pub name : Option CString
  pub sh_type : ℕ
  pub note_data : Option NoteData

abbrev pub header_size : ℕ
header_size = 12

abbrev pub nt_gnu_build_id : ℕ
nt_gnu_build_id = 3

-- `(n + 3) & ~3` in 32 bits.
abbrev pub aligned : ℕ → ℕ
aligned n = (n + 3) % 2 ^ 32 / 4 * 4

-- The walk finds the place and the length of a description, or comes to its end.
pub data Walk : Type 0 where
  found : ℕ → ℕ → Walk
  ended out_of_fuel : Walk

-- What is done with a note of a section of `d_size` bytes; `next` is the walk from an offset on.
unfoldable pub check_note : ℕ → ℕ → (ℕ → Walk) → Option NoteHeader → Walk
check_note d_size offset next none = ended
check_note d_size offset next (some nhdr) =
    let desc = offset + header_size + aligned nhdr.n_namesz in
    let end = desc + aligned nhdr.n_descsz in
    if ltb d_size nhdr.n_namesz || ltb d_size nhdr.n_descsz
    then ended
    else if ltb d_size end
    then ended
    else if (nhdr.n_type == nt_gnu_build_id) && ltb 0 nhdr.n_descsz
    then found desc nhdr.n_descsz
    else next end

-- The loop over the notes, from an offset on.
unfoldable pub walk_notes : ℕ → NoteData → ℕ → Walk
unfolding check_note
walk_notes zero notes offset =
    if ltb (offset + header_size) (length notes.d_buf) then out_of_fuel else ended
walk_notes (suc fuel) notes offset =
    let d_size = length notes.d_buf in
    let checked = check_note d_size offset (walk_notes fuel notes) (notes.getnote offset) in
    if ltb (offset + header_size) d_size then checked else ended

abbrev pub print_hex_digit : ℕ → ℕ
print_hex_digit n = if ltb n 10 then n + b'0' else n - 10 + b'a'

-- `sprintf("%02x")` for each byte.
abbrev pub hex_string : List ℕ → CString
hex_string [] = []
hex_string (byte ∷ bytes) =
    print_hex_digit (byte / 16) ∷ print_hex_digit (byte % 16) ∷ hex_string bytes

-- `malloced` is whether there is memory for the string. What is left of the sections is read where
-- the walk finds nothing.
unfoldable pub read_id : Bool → NoteData → Option CString → Walk → Option CString
read_id malloced notes others (found desc size) =
    if malloced then some (hex_string (take size (drop desc notes.d_buf))) else none
read_id malloced notes others ended = others
read_id malloced notes others out_of_fuel = others

abbrev pub is_build_id_section : NoteSection → Bool
is_build_id_section s = elim s.name [
  | none ↦ false
  | some name ↦ same name (text ".note.gnu.build-id") && (s.sh_type == 7)
]

-- A turn of the walk takes a header, so the size of the section is enough fuel.
unfoldable pub read_section : Bool → Option CString → Option NoteData → Option CString
unfolding walk_notes read_id
read_section malloced others none = others
read_section malloced others (some notes) =
    read_id malloced notes others (walk_notes (length notes.d_buf + 1) notes 0)

unfoldable pub read_sections : Bool → List NoteSection → Option CString
unfolding read_section same
read_sections malloced [] = none
read_sections malloced (s ∷ sections) =
    let others = read_sections malloced sections in
    if is_build_id_section s then read_section malloced others s.note_data else others

-- `shstrndx_ok` is whether `elf_getshdrstrndx` succeeds; `none` is NULL.
unfoldable pub get_elf_build_id_from_elf : Bool → Bool → List NoteSection → Option CString
unfolding read_sections
get_elf_build_id_from_elf shstrndx_ok malloced sections =
    if shstrndx_ok then read_sections malloced sections else none
