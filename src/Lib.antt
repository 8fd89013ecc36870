-- ===== src/Lib.antt =====
-- TCBackup: a model of the parts of client and server that cut, deduplicate, send, store and
-- restore files.
--
-- The client cuts files into chunks named by SHA-1 fingerprints. It asks the server whether it
-- knows the whole file; the server keeps the chunks of every file, its recipe, in a volume, and
-- sends them for a known file. For a new file an index of known fingerprints (a bin) says which
-- chunks are stored; new chunks go to an open container, which is written to a file when it is
-- full, and a restore reads chunks back through a cache of containers. Rewriting policies store
-- some duplicates again, to keep a backup in fewer containers. On the client every index is the
-- same chained hash table.
--
-- HashTable models client/lib/htable.c, class htable: init, insert, grow_table, lookup, remove,
--   first and next. Chain, Invariant, Grow, Laws, Walk, Each and Load prove its laws.
-- Container models client/src/container.c: InitContainer, AppendChunkToContainer (append_chunk),
--   ReadChunkFromContainer (read_chunk), WriteContainer and ReadContainer.
-- Store models client/src/store.c: store_init, store_chunk, store_destory, and in Store/Restore
--   restore_init and restore_chunk; Store/Cache models init_cache and search_cache of container.c.
-- Chunking models client/lib/rabin.c, the macro SLIDE and chunk_data, and chunk_file of
--   client/src/backup.c.
-- Hex models hash2code and code2hash of client/src/read_trace.c and digestToHash of
--   client/lib/rabin.c.
-- Dedup models mark_deplicate_chunk and write_chunk_to_cloud of client/src/chunkdedup.c;
--   Dedup/Perfect models client/src/perfect_rewrite.c, Dedup/Capping client/src/capping.c and
--   Dedup/Cfl client/src/cfl.c.
-- Binning models client/src/extreme_binning.c: WriteBinToVolume (write_bin) and ReadBinFromVolume
--   (read_bin), in Binning/Primary LocationBin, NewBin, LoadBin and FreeBin, and in
--   Binning/Files BinVolumeInit, BinVolumeFlush, ExtremeBinningInit and ExtremeBinningFlush.
-- Backup puts Chunking, Dedup, Store and Store/Restore together: chunk_dedup of
--   client/src/chunkdedup.c and the loop of construct_file of client/src/restore.c.
-- Network models client/lib/bnet.c; Network/Chunks models the chunks of update_file_recipe in
--   client/src/chunkdedup.c, and recv_deplicate_chunk and send_chunk_info of server/src/backup.c;
--   Network/Files models send_job_info of server/src/restore.c and recv_file_list of
--   client/src/restore.c, with an outcome for a buffer that is overrun.
-- Recipes models server/src/recipe.c. Server models index_insert of server/src/index.c,
--   file_dedup_mark of server/src/backup.c, what new_backup of server/src/dedupHandle.c does to
--   index and volume (on_file_hash, on_file_recipe), and the answer in is_new_file of
--   client/src/filededup.c; Server/Saved models index_close and index_open of server/src/index.c.
-- Queue models client/lib/queue.c, with threads as steps of a relation in Queue/Shared; Dlist
--   models client/lib/dlist.c.
-- Prelude holds what they share, Tests concrete inputs.
--
-- State is passed along: a table, a container, the list of files (newest first), the volumes. An
-- item that the code changes through a pointer is changed in its table (modify); the linked lists
-- have a memory of cells. A function that returns false gives none, or a Boolean where the state
-- goes on. Counters are unbounded, but the hash keeps 64 bits, and integers in files and
-- messages, the length of a bin, that of the capping buffer and the usage of a segment keep 32.
-- The loops over bits of a size, over levels of a bin, over a walk and over a file have a fuel that
-- bounds them: the size, the length of the bin, the number of items, the number of bytes.
--
-- Parameters stand for what is not in the repository or not modelled: SHA-1, the tables of the
-- rolling hash, the container names that GetContainerName makes, the reads of the file that is
-- backed up, what read and write meet on a socket, the fetch from the cloud, the comparison of
-- floats that calls a segment sparse, the fragmentation level and its comparisons, and the
-- server's hash table by its laws.
--
-- Not modelled: the rest of the threads, commands and sockets, the database, the cloud's library,
-- timers and logs, the client's recv_deplicate_chunk (it overruns a variable on every call),
-- searching and moving in the doubly linked list, and the code copied from other projects.
pub mod Backup
pub mod Prelude
pub mod HashTable
pub mod Container
pub mod Hex
pub mod Store
pub mod Dedup
pub mod Binning
pub mod Chunking
pub mod Network
pub mod Recipes
pub mod Server
pub mod Queue
pub mod Dlist
pub mod Tests
