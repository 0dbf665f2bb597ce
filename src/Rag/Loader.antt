-- ===== src/Rag/Loader.antt =====
-- internal/rag/document_loader.go: documents from the files of a directory and from the entries of a
-- ConfigMap. A path is slashed, as on Linux. filepath.Rel, and the lower case and the trimming of
-- texts with a byte that is not ASCII, are parameters; a walk is the list of what it visits.
pub mod Ids
mod Tests
use kube_diagnose.Common.{
  ℕ, zero, suc, ◌+◌, ◌-◌, List, [], ◌∷◌, ◌++◌, map, Bool, true, false, not, ◌&&◌, ◌||◌, Option,
  none, some, Text, Text-discrete, codes, contains, ite, ◌==◌, if◌then◌else◌, length, take, drop,
}
use kube_diagnose.Aggregator.Slug.{to_lower}
use kube_diagnose.LogWatcher.Filter.{Library, trim_space}
use kube_diagnose.Rag.Document.{Document, DocumentType, runbook, postmortem, guide, unknown}

pub record Paths : Type 0 where
  pub unicode_lower : Text → Text
  pub library : Library
  -- filepath.Rel of a directory and a path; none is an error.
  pub relative : Text → Text → Option Text

abbrev pub slash : ℕ
slash = 47

abbrev pub has_slash : Text → Bool
has_slash [] = false
has_slash (c ∷ cs) = c == slash || has_slash cs

-- filepath.Ext: from the last dot on, if no slash follows it.
unfoldable pub ext : Text → Text
ext [] = []
ext (c ∷ cs) = elim (ext cs) [
  | [] ↦ if c == 46 && not (has_slash cs) then c ∷ cs else []
  | d ∷ ds ↦ d ∷ ds
]

-- strings.TrimSuffix.
unfoldable pub trim_suffix : Text → Text → Text
trim_suffix s suffix =
    let start = length s - length suffix in
    ite (Text-discrete (drop start s) suffix) (take start s) s

-- strings.Split at slashes; `part` is the part read so far.
unfoldable pub split_slashes : Text → Text → List Text
split_slashes [] part = part ∷ []
split_slashes (c ∷ cs) part =
    if c == slash then part ∷ split_slashes cs [] else split_slashes cs (part ++ (c ∷ []))

unfoldable pub replace_byte : ℕ → ℕ → Text → Text
replace_byte old new s = map (λ c. if c == old then new else c) s

abbrev pub all_but_last : List Text → List Text
all_but_last [] = []
all_but_last (t ∷ []) = []
all_but_last (t ∷ u ∷ ts) = t ∷ all_but_last (u ∷ ts)

abbrev pub last_of : List Text → Text
last_of [] = []
last_of (t ∷ []) = t
last_of (t ∷ u ∷ ts) = last_of (u ∷ ts)

-- What a walk visits: a place it cannot access, a directory, or a file with its path, its name
-- and its content, where it can be read.
pub data Visit : Type 0 where
  inaccessible : Visit
  directory : Visit
  file : Text → Text → Option Text → Visit

module _ (p : Paths) where
  abbrev pub lower : Text → Text
  lower = to_lower p.unicode_lower

  unfoldable pub supported_extension : Text → Bool
  supported_extension e = contains (lower e) (codes ".md" ∷ codes ".txt" ∷ [])

  -- The type that one component of a path gives.
  unfoldable pub component_type : Text → Option DocumentType
  component_type part =
      let l = lower part in
      if contains l (codes "runbooks" ∷ codes "runbook" ∷ [])
      then some runbook
      else if contains l (codes "postmortems" ∷ codes "postmortem" ∷ [])
      then some postmortem
      else if contains l (codes "guides" ∷ codes "guide" ∷ [])
      then some guide
      else none

  unfoldable pub first_type : List Text → DocumentType
  first_type [] = unknown
  first_type (part ∷ parts) = elim (component_type part) [ some t ↦ t | none ↦ first_type parts ]

  unfoldable pub infer_document_type : Text → DocumentType
  infer_document_type path = first_type (split_slashes path [])

  unfoldable pub title_from_filename : Text → Text
  title_from_filename filename =
      trim_space p.library
        (replace_byte 95 32 (replace_byte 45 32 (trim_suffix filename (ext filename))))

  abbrev pub relative_or : Text → Option Text → Text
  relative_or path none = path
  relative_or path (some r) = r

  unfoldable pub document_id : Text → Text → Text
  document_id dir path =
      let rel = relative_or path (p.relative dir path) in
      lower (replace_byte 32 95 (replace_byte slash 95 (trim_suffix rel (ext rel))))

  -- A component that is empty, or a dot for a path, is no tag.
  abbrev pub is_plain : Text → Bool
  is_plain [] = false
  is_plain (c ∷ []) = not (c == 46)
  is_plain (c ∷ d ∷ ds) = true

  unfoldable pub tags_of : List Text → List Text
  tags_of [] = []
  tags_of (part ∷ parts) = if is_plain part then lower part ∷ tags_of parts else tags_of parts

  abbrev pub tags_from_relative : Option Text → List Text
  tags_from_relative none = []
  tags_from_relative (some rel) = tags_of (all_but_last (split_slashes rel []))

  unfoldable pub tags_from_path : Text → Text → List Text
  tags_from_path dir path = tags_from_relative (p.relative dir path)

  abbrev pub file_document : Text → Text → Text → Text → Document
  file_document dir path name content = record {
    id = document_id dir path;
    title = title_from_filename name;
    content = content;
    kind = infer_document_type path;
    source = path;
    tags = tags_from_path dir path;
  }

  unfoldable pub load_visits : Text → List Visit → List Document
  load_visits dir [] = []
  load_visits dir (inaccessible ∷ vs) = load_visits dir vs
  load_visits dir (directory ∷ vs) = load_visits dir vs
  load_visits dir (file path name none ∷ vs) = load_visits dir vs
  load_visits dir (file path name (some content) ∷ vs) =
      if supported_extension (ext name)
      then file_document dir path name content ∷ load_visits dir vs
      else load_visits dir vs

  -- The walk of a path, or none when it is no directory that can be accessed.
  unfoldable pub load_from_directory : (Text → Option (List Visit)) → Text → Option (List Document)
  load_from_directory walk dir = elim (walk dir) [
    | none ↦ none
    | some vs ↦ some (load_visits dir vs)
  ]

  abbrev pub without_underscore : Text → Text
  without_underscore [] = []
  without_underscore (c ∷ cs) = if c == 95 then cs else c ∷ cs

  unfoldable pub config_map_id : Text → Text
  config_map_id key =
      without_underscore
        (replace_byte 32 95 (replace_byte 46 95 (replace_byte slash 95 (lower key))))

  abbrev pub title_or : Text → Text → Text
  title_or key [] = key
  title_or key (c ∷ cs) = c ∷ cs

  abbrev pub key_tags : List Text → List Text
  key_tags [] = []
  key_tags ([] ∷ parts) = key_tags parts
  key_tags ((c ∷ cs) ∷ parts) = lower (c ∷ cs) ∷ key_tags parts

  abbrev pub entry_document : Text → Text → Document
  entry_document key content = record {
    id = config_map_id key;
    title = title_or key (title_from_filename (last_of (split_slashes key [])));
    content = content;
    kind = infer_document_type key;
    source = codes "configmap:" ++ key;
    tags = key_tags (all_but_last (split_slashes key []));
  }

  unfoldable pub load_entries : List (Text × Text) → List Document
  load_entries [] = []
  load_entries (entry ∷ entries) = elim (trim_space p.library entry.1) [
    | [] ↦ load_entries entries
    | c ∷ cs ↦ entry_document entry.0 entry.1 ∷ load_entries entries
  ]

  -- A nil map is an error.
  unfoldable pub load_from_config_map : Option (List (Text × Text)) → Option (List Document)
  load_from_config_map none = none
  load_from_config_map (some entries) = some (load_entries entries)
