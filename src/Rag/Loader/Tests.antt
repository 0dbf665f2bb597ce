-- ===== src/Rag/Loader/Tests.antt =====
-- internal/rag/document_loader.go: the loader at concrete inputs.
use kube_diagnose.Common.{[], ◌∷◌, none, some, Text-discrete, codes, contains, drop, ◌≡◌, refl}
use kube_diagnose.Aggregator.Slug.{to_lower}
use kube_diagnose.LogWatcher.Filter.{trim_space}
use kube_diagnose.Rag.Document.{runbook, postmortem}
use kube_diagnose.Rag.Loader.{
  Paths, file, directory, ext, trim_suffix, split_slashes, replace_byte, supported_extension,
  component_type, first_type, infer_document_type, title_from_filename, document_id, tags_of,
  tags_from_path, load_visits, load_from_directory, config_map_id, load_entries,
  load_from_config_map,
}

-- Paths below a directory /docs.
abbrev paths : Paths
paths = record {
  unicode_lower = λ t. t;
  library = record { unicode_trim = λ t. t; unicode_upper = λ t. t; compile = λ t. none };
  relative = λ dir path. some (drop 6 path);
}

load_from_directory-docs :
    load_from_directory paths
      (λ dir. some (
        directory
        ∷ file
            (codes "/docs/Postmortems/oom-killer_2.MD")
            (codes "oom-killer_2.MD")
            (some (codes "text"))
        ∷ file (codes "/docs/logo.png") (codes "logo.png") (some [])
        ∷ file (codes "/docs/gone.md") (codes "gone.md") none
        ∷ []))
      (codes "/docs")
    ≡ some (
        record {
          id = codes "postmortems_oom-killer_2";
          title = codes "oom killer 2";
          content = codes "text";
          kind = postmortem;
          source = codes "/docs/Postmortems/oom-killer_2.MD";
          tags = codes "postmortems" ∷ [];
        }
        ∷ [])
unfolding load_from_directory load_visits supported_extension ext trim_suffix split_slashes
    replace_byte component_type first_type infer_document_type title_from_filename document_id
    tags_of tags_from_path to_lower contains trim_space Text-discrete
load_from_directory-docs = refl

load_from_config_map-key :
    load_from_config_map paths
      (some ((codes "runbooks/OOM.md", codes "text") ∷ (codes "b", []) ∷ []))
    ≡ some (
        record {
          id = codes "runbooks_oom_md";
          title = codes "OOM";
          content = codes "text";
          kind = runbook;
          source = codes "configmap:runbooks/OOM.md";
          tags = codes "runbooks" ∷ [];
        }
        ∷ [])
unfolding load_from_config_map load_entries config_map_id ext trim_suffix split_slashes replace_byte
    component_type first_type infer_document_type title_from_filename to_lower contains trim_space
    Text-discrete
load_from_config_map-key = refl
