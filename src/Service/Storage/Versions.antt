-- ===== src/Service/Storage/Versions.antt =====
-- distributed-fs/managed_file_service.go: `writeChunks` and `deleteObjects` leave objects of other
-- versions alone.
use go_infra_lab.Common.{ℕ, ◌≡◌, ◌∙◌, refl, arith, String, false, Option, none, List, [], ◌∷◌, eqb}
use go_infra_lab.Metadata.{ChunkMetadata}
use go_infra_lab.Objects.Contract.{IsObjectStore, same_object}
use go_infra_lab.Objects.Names.{chunk_object_key}
use go_infra_lab.Staging.Chunks.{slice}
use package.go_infra_lab.Service.{Environment}
use package.go_infra_lab.Service.Storage.{
  delete_chunks, delete_objects, write_chunk, write_loop, write_chunks,
}

module _ {S Q O : Type 0} (env : Environment S Q O)
    (contents : String → String → ℕ → O → Option (List ℕ)) (laws : IsObjectStore env.store contents)
    (seeks : (n : ℕ) → env.seek_error n ≡ none) where
  module _ (node key : String) (version : ℕ) (file : List ℕ) (all : List ChunkMetadata) where
    -- Objects of other versions.
    abbrev KeepsVersions : O → O → Type 0
    KeepsVersions o' o =
        (n' k' : String) (v' : ℕ)
        → eqb version v' ≡ false
        → contents n' k' v' o' ≡ contents n' k' v' o

    other_version :
        (k n' k' : String) (v' : ℕ)
        → eqb version v' ≡ false
        → same_object node k version n' k' v' ≡ false
    other_version k n' k' v' differs = ground arith

    delete_chunks-KeepsVersions :
        (chunks : List ChunkMetadata) (o : O)
        → KeepsVersions (delete_chunks env node key version chunks o) o
    unfolding delete_chunks
    delete_chunks-KeepsVersions [] o n' k' v' differs = refl
    delete_chunks-KeepsVersions (chunk ∷ rest) o n' k' v' differs =
        let k = chunk_object_key key chunk.index in
        delete_chunks-KeepsVersions rest (env.store.delete_object node k version o).1 n' k' v'
          differs
        ∙ laws.delete_others node k version o n' k' v' (other_version k n' k' v' differs)

    pub delete_objects-KeepsVersions :
        (chunks : List ChunkMetadata) (o : O) (n' k' : String) (v' : ℕ)
        → eqb version v' ≡ false
        → contents n' k' v' (delete_objects env node key version chunks o) ≡ contents n' k' v' o
    unfolding delete_objects
    delete_objects-KeepsVersions [] o n' k' v' differs =
        laws.delete_others node key version o n' k' v' (other_version key n' k' v' differs)
    delete_objects-KeepsVersions (chunk ∷ rest) o n' k' v' differs =
        delete_chunks-KeepsVersions (chunk ∷ rest) o n' k' v' differs

    write_chunk-KeepsVersions :
        (chunk : ChunkMetadata) (o : O)
        → KeepsVersions (write_chunk env node key version file all chunk o).1 o
    unfolding write_chunk
    write_chunk-KeepsVersions chunk o n' k' v' differs =
        let k = chunk_object_key key chunk.index in
        let bytes = slice file chunk in
        ground (
          arith,
          seeks chunk.offset,
          delete_objects-KeepsVersions all (env.store.write_object node k version bytes none o).1 n'
              k' v' differs,
          laws.write_others node k version bytes o n' k' v' (other_version k n' k' v' differs),
        )

    write_loop-KeepsVersions :
        (rest : List ChunkMetadata) (o : O)
        → KeepsVersions (write_loop env node key version file all rest o).1 o
    unfolding write_loop
    write_loop-KeepsVersions [] o n' k' v' differs = refl
    write_loop-KeepsVersions (chunk ∷ rest) o n' k' v' differs = ground (
      arith,
      write_chunk-KeepsVersions chunk o n' k' v' differs,
      write_loop-KeepsVersions rest (write_chunk env node key version file all chunk o).1 n' k' v'
          differs,
    )

  -- Whether `writeChunks` succeeds or not, it changes no object of another version.
  pub write_chunks-KeepsVersions :
      (node key : String) (version : ℕ) (file : List ℕ) (chunks : List ChunkMetadata) (o : O)
      (n' k' : String) (v' : ℕ)
      → eqb version v' ≡ false
      → contents n' k' v' (write_chunks env node key version file chunks o).1 ≡ contents n' k' v' o
  unfolding write_chunks
  write_chunks-KeepsVersions node key version file [] o n' k' v' differs = ground (
    arith,
    seeks 0,
    laws.write_others node key version file o n' k' v'
        (other_version node key version file [] key n' k' v' differs),
  )
  write_chunks-KeepsVersions node key version file (chunk ∷ rest) o n' k' v' differs =
      write_loop-KeepsVersions node key version file (chunk ∷ rest) (chunk ∷ rest) o n' k' v'
        differs
