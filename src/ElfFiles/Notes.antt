-- ===== src/ElfFiles/Notes.antt =====
-- The walk over the notes of a file comes to an end, and reads only what the section has.
use profiling.Prelude.{
  ℕ, ◌+◌, ◌-◌, ◌^◌, ◌<◌, ◌≤◌, ◌≡◌, ◌⊎◌, Bool, true, false, ◌&&◌, ◌||◌, Option, none, some, List, [],
  ◌∷◌, ltb, ◌==◌, length, take, drop, OrNone,
}
use profiling.CString.{CString}
use profiling.ElfFiles.BuildId.{
  NoteHeader, NoteData, NoteSection, Walk, found, ended, out_of_fuel, aligned, hex_string,
  is_build_id_section,
}

-- The notes of a section, one behind the other, up to one with a build id.
abbrev pub is_id : NoteHeader → Bool
is_id nhdr = (nhdr.n_type == 3) && ltb 0 nhdr.n_descsz

abbrev pub description : ℕ → NoteHeader → ℕ
description offset nhdr = offset + 12 + aligned nhdr.n_namesz

pub data Reaches (notes : NoteData) : ℕ → Type 0 where
  first_note : Reaches notes 0
  next_note :
      (offset : ℕ) (nhdr : NoteHeader)
      → Reaches notes offset
      → notes.getnote offset ≡ some nhdr
      → is_id nhdr ≡ false
      → Reaches notes (description offset nhdr + aligned nhdr.n_descsz)

-- A note that does not fit the section.
abbrev pub Exceeds : ℕ → ℕ → NoteHeader → Type 0
Exceeds d_size offset nhdr =
    ((ltb d_size nhdr.n_namesz || ltb d_size nhdr.n_descsz) ≡ true)
    ⊎ (d_size < description offset nhdr + aligned nhdr.n_descsz)

-- The notes end, with no build id: behind the last one, at one that cannot be read, or at one that
-- does not fit.
abbrev pub HasNoId : NoteData → Type 0
HasNoId notes =
    (offset : ℕ) × Reaches notes offset
    × ((length notes.d_buf ≤ offset + 12)
        ⊎ OrNone (Exceeds (length notes.d_buf) offset) (notes.getnote offset))

-- The description of the first note with a build id, which lies in the section.
abbrev pub IsIdNote : NoteData → ℕ → ℕ → Type 0
IsIdNote notes desc size =
    (offset : ℕ) × (nhdr : NoteHeader) × Reaches notes offset
    × (notes.getnote offset ≡ some nhdr)
    × (is_id nhdr ≡ true)
    × (desc ≡ description offset nhdr)
    × (size ≡ nhdr.n_descsz)
    × (desc + size ≤ length notes.d_buf)

abbrev pub IsEnd : NoteData → Walk → Type 0
IsEnd notes (found desc size) = IsIdNote notes desc size
IsEnd notes ended = HasNoId notes
IsEnd notes out_of_fuel = ⊥

abbrev pub IsSmall : NoteSection → Type 0
IsSmall s = OrNone (λ notes. length notes.d_buf < 2 ^ 32 - 3) s.note_data

-- The id is the description of a note of the section, in digits.
abbrev pub IsIdIn : CString → NoteSection → Type 0
IsIdIn id s =
    (is_build_id_section s ≡ true)
    × ((notes : NoteData) × (s.note_data ≡ some notes)
        × ((desc : ℕ) × (size : ℕ) × IsIdNote notes desc size
            × (id ≡ hex_string (take size (drop desc notes.d_buf)))))

-- It is no section ".note.gnu.build-id" of type SHT_NOTE, or has no data, or no note with an id.
abbrev pub LacksId : NoteSection → Type 0
LacksId s = (is_build_id_section s ≡ false) ⊎ OrNone HasNoId s.note_data

-- The first id of the sections; `none` where no section has one, or there is no memory for it.
abbrev pub IsFirstId : Bool → List NoteSection → Option CString → Type 0
IsFirstId malloced [] none = Unit
IsFirstId malloced [] (some id) = ⊥
IsFirstId malloced (s ∷ sections) none =
    (malloced ≡ false) ⊎ (LacksId s × IsFirstId malloced sections none)
IsFirstId malloced (s ∷ sections) (some id) =
    IsIdIn id s ⊎ (LacksId s × IsFirstId malloced sections (some id))
