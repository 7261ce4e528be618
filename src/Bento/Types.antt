-- ===== src/Bento/Types.antt =====
-- newObjectFromStream of source/containers/vbento.cpp knows each class by its DATA_TYPE_ID.
use code_vault.Base.{◌≡◌, refl}
use code_vault.Bento.{
  DataType, data_type_id, reads, reader_of, same_text, s8, u8, s16, u16, s32, u32, s64, u64,
  boolean, string, character, float, double, duration, instant, size, isize, point, ipoint, point3d,
  ipoint3d, line, iline, rect, irect, polygon, ipolygon, color, binary, s8_array, s16_array,
  s32_array, s64_array, string_array, bool_array, double_array, duration_array, instant_array,
}

pub reader_of-data_type_id : (d : DataType) → reader_of (data_type_id d) ≡ reads d
unfolding reader_of same_text
reader_of-data_type_id s8 = refl
reader_of-data_type_id u8 = refl
reader_of-data_type_id s16 = refl
reader_of-data_type_id u16 = refl
reader_of-data_type_id s32 = refl
reader_of-data_type_id u32 = refl
reader_of-data_type_id s64 = refl
reader_of-data_type_id u64 = refl
reader_of-data_type_id boolean = refl
reader_of-data_type_id string = refl
reader_of-data_type_id character = refl
reader_of-data_type_id float = refl
reader_of-data_type_id double = refl
reader_of-data_type_id duration = refl
reader_of-data_type_id instant = refl
reader_of-data_type_id size = refl
reader_of-data_type_id isize = refl
reader_of-data_type_id point = refl
reader_of-data_type_id ipoint = refl
reader_of-data_type_id point3d = refl
reader_of-data_type_id ipoint3d = refl
reader_of-data_type_id line = refl
reader_of-data_type_id iline = refl
reader_of-data_type_id rect = refl
reader_of-data_type_id irect = refl
reader_of-data_type_id polygon = refl
reader_of-data_type_id ipolygon = refl
reader_of-data_type_id color = refl
reader_of-data_type_id binary = refl
reader_of-data_type_id s8_array = refl
reader_of-data_type_id s16_array = refl
reader_of-data_type_id s32_array = refl
reader_of-data_type_id s64_array = refl
reader_of-data_type_id string_array = refl
reader_of-data_type_id bool_array = refl
reader_of-data_type_id double_array = refl
reader_of-data_type_id duration_array = refl
reader_of-data_type_id instant_array = refl
