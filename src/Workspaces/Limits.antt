-- ===== src/Workspaces/Limits.antt =====
-- The limits on the files of a workspace: src/app/workspaces/service.py.
use model_lib.Base.{
  ℕ, ◌+◌, ◌≤◌, ◌≡◌, ◌≢◌, Option, none, some, List, arith, ==_iff, Option-cases, inl, inr, length,
}
use model_lib.Json.{Runtime}
use model_lib.Session.{Session, ok, Result-cases}
use model_lib.Workspaces.Repository.{find_workspace, file_count, total_bytes, add_file}
use model_lib.Workspaces.Service.{
  UploadRequest, WorkspaceSettings, ExtractedFile, WorkspaceFileView, file_view, extract_bytes,
  validate_and_extract, require_workspace, add_extracted, upload_file,
}

module _ (settings : WorkspaceSettings) (py : Runtime) (req : UploadRequest) where
  extract_bytes_lem :
      (o : Option (List ℕ)) (extracted : ExtractedFile)
      → extract_bytes settings py req o ≡ ok extracted
      → (extracted.size ≡ length extracted.content)
        × (extracted.size ≤ settings.workspace_file_max_bytes)
  unfolding extract_bytes
  extract_bytes_lem none extracted h = absurd (ground arith)
  extract_bytes_lem (some content) extracted h = ground arith

  extract_lem :
      (extracted : ExtractedFile)
      → validate_and_extract settings py req ≡ ok extracted
      → (extracted.size ≡ length extracted.content)
        × (extracted.size ≤ settings.workspace_file_max_bytes)
  unfolding validate_and_extract
  extract_lem extracted h =
      ground (arith, extract_bytes_lem (settings.attachments.codec.b64decode req.content) extracted)

  -- An upload that went through was to a workspace of the user, of a file within the limit on
  -- one file, and leaves the workspace within the limits on their number and on all their bytes,
  -- with one file more.
  pub upload_bounds :
      (workspace_id user_id : ℕ) (s s' : Session) (view : WorkspaceFileView)
      → upload_file settings py workspace_id user_id req s ≡ (ok view, s')
      → (find_workspace workspace_id user_id s.current.workspace_projects ≢ none)
        × (view.size ≤ settings.workspace_file_max_bytes)
        × (file_count workspace_id s'.current.workspace_files
            ≡ file_count workspace_id s.current.workspace_files + 1)
        × (total_bytes workspace_id s'.current.workspace_files
            ≡ total_bytes workspace_id s.current.workspace_files + view.size)
        × (file_count workspace_id s'.current.workspace_files ≤ settings.workspace_file_max_count)
        × (total_bytes workspace_id s'.current.workspace_files
            ≤ settings.workspace_files_total_bytes)
  unfolding upload_file require_workspace add_extracted add_file file_view file_count total_bytes
  upload_bounds workspace_id user_id s s' view h =
      elim (Option-cases (find_workspace workspace_id user_id s.current.workspace_projects)) [
        | inl none_there ↦ absurd (ground arith)
        | inr (w, there) ↦ elim (Result-cases (validate_and_extract settings py req)) [
          | inr (e, bad) ↦ absurd (ground arith)
          | inl (extracted, good) ↦
              ground (arith, extract_lem extracted good, ==_iff workspace_id workspace_id)
        ]
      ]
