-- ===== src/Fs/Sfs/Examples.antt =====
-- The theorems of SaturnFS at a disk in RAM that is formatted and holds one file.
use saturn_os.Prelude.{
  ◌≡◌, refl, Bool, true, false, some, find_first, map_range, arith, ltb, if◌then◌else◌, [], ◌∷◌,
}
use saturn_os.Storage.Block.{block_sector_count, block_write, refused, write_buffer}
use saturn_os.Storage.Block.Examples.{no_device, ram_block}
use saturn_os.Fs.Paths.{FilePath}
use saturn_os.Fs.Sfs.{Sfs, sfs_path_valid, entry_for, find_entry, formatted_entry}
use saturn_os.Fs.Sfs.Format.{sfs_format, sfs_init, formatted, write_tables, write_directory}
use saturn_os.Fs.Sfs.Files.{sfs_write_file, sfs_read_file}
use saturn_os.Fs.Sfs.Contents.{Mounted, Reads, sfs_read_file-Given}
use saturn_os.Fs.Sfs.Writes.{accepts, Writes, sfs_write_file-Writes}
use saturn_os.Fs.Sfs.Mount.{OnDisk}
use saturn_os.Fs.Sfs.Stored.{sfs_write_file-OnDisk}
use saturn_os.Fs.Sfs.RoundTrip.{sfs_read_file-sfs_init}
use saturn_os.Fs.Sfs.Empty.{IsEmpty, sfs_format-IsEmpty}

-- The variables before anything has been read.
abbrev raw : Sfs Bool
raw = record {
  block = ram_block;
  superblock = record {
    magic = 0;
    version = 0;
    sector_size = 0;
    total_sectors = 0;
    max_files = 0;
    data_start = 0;
    reserved = λ i. 0;
  };
  directory = record {
    entries = λ i. record { path = λ j. 7; start_sector = 0; size = 9; checksum = 9; flags = 1 };
    reserved = λ i. 7;
  };
  io_buffer = λ i. 7;
  mounted = false;
}

-- "/f"
abbrev file_path : FilePath
file_path = 47 ∷ 102 ∷ []

abbrev formatted_disk : Sfs Bool
formatted_disk = (sfs_format no_device raw).0

abbrev one_file : Sfs Bool
one_file = (sfs_write_file no_device formatted_disk file_path (some (λ i. i)) 3).0

sfs_format-IsEmpty_example : ((sfs_format no_device raw).1 ≡ true) × IsEmpty formatted_disk
sfs_format-IsEmpty_example = sfs_format-IsEmpty no_device raw refl

formatted_disk-IsEmpty : IsEmpty formatted_disk
formatted_disk-IsEmpty = let (_, empty) = sfs_format-IsEmpty no_device raw refl in empty

one_file-Mounted : Mounted one_file
one_file-Mounted =
    let (_, _, mounted) =
      sfs_write_file-Writes no_device formatted_disk file_path (some (λ i. i)) 3
        formatted_disk-IsEmpty.mounted (refl, (refl, tt)) in
    mounted

sfs_write_file-OnDisk_example : OnDisk one_file
sfs_write_file-OnDisk_example =
    sfs_write_file-OnDisk no_device formatted_disk file_path (some (λ i. i)) 3
      formatted_disk-IsEmpty.mounted formatted_disk-IsEmpty.on_disk

sfs_read_file-Given_example :
    Reads no_device one_file file_path
      (some (λ i. 9))
      8
      (sfs_read_file no_device one_file file_path (some (λ i. 9)) 8)
sfs_read_file-Given_example =
    sfs_read_file-Given no_device one_file file_path (some (λ i. 9)) 8 one_file-Mounted

file_path-accepted : accepts formatted_disk.directory file_path (some (λ i. i)) 3 ≡ true
unfolding sfs_path_valid entry_for find_entry find_first sfs_format block_sector_count write_tables
    block_write refused formatted write_buffer write_directory map_range formatted_entry
file_path-accepted = refl

sfs_read_file-sfs_init_example :
    (sfs_read_file no_device
      (sfs_init no_device (record raw { block = one_file.block }) (λ i. 5))
      file_path
      (some (λ i. 9))
      8).1
    ≡ some (3, λ j. if ltb j 3 then j else 9)
sfs_read_file-sfs_init_example =
    sfs_read_file-sfs_init no_device formatted_disk (record raw { block = one_file.block })
      file_path (some (λ i. i)) 3 (λ i. 5) (λ i. 9) 8 formatted_disk-IsEmpty.mounted
      formatted_disk-IsEmpty.on_disk (refl, (refl, tt)) file_path-accepted refl (omega arith)
