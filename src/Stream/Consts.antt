-- ===== src/Stream/Consts.antt =====
-- The sizes and the message types of the protocol.
use transmitic_core.Common.{ℕ, ◌+◌, Bool, List, [], ◌∷◌, contains}

abbrev pub msg_type_size : ℕ
msg_type_size = 2

abbrev pub payload_size_len : ℕ
payload_size_len = 4

abbrev pub crc_size : ℕ
crc_size = 4

abbrev pub msg_file_list : ℕ
msg_file_list = 1

abbrev pub msg_file_list_piece : ℕ
msg_file_list_piece = 2

abbrev pub msg_file_list_final : ℕ
msg_file_list_final = 3

abbrev pub msg_file_chunk : ℕ
msg_file_chunk = 4

abbrev pub msg_file_finished : ℕ
msg_file_finished = 5

abbrev pub msg_file_invalid_file : ℕ
msg_file_invalid_file = 6

abbrev pub msg_cannot_select_directory : ℕ
msg_cannot_select_directory = 7

abbrev pub msg_file_selection_continue : ℕ
msg_file_selection_continue = 8

abbrev pub msg_reverse : ℕ
msg_reverse = 9

abbrev pub msg_reverse_no_list : ℕ
msg_reverse_no_list = 10

abbrev pub crc_messages : List ℕ
crc_messages =
    msg_file_list_piece ∷ msg_file_list_final ∷ msg_file_chunk ∷ msg_file_selection_continue ∷ []

abbrev pub max_data_size : ℕ
max_data_size = 100_000

abbrev pub crypto_extension_size : ℕ
crypto_extension_size = 16

abbrev pub total_buffer_size : ℕ
total_buffer_size = msg_type_size + payload_size_len + max_data_size + crc_size

abbrev pub total_crypto_buffer_size : ℕ
total_crypto_buffer_size = total_buffer_size + crypto_extension_size

abbrev pub payload_offset : ℕ
payload_offset = msg_type_size + payload_size_len

abbrev pub nonce_max : ℕ
nonce_max = 79_228_162_514_264_337_593_543_950_335

abbrev pub nonce_init : ℕ
nonce_init = 0

unfoldable pub is_crc_payload : ℕ → Bool
unfolding contains
is_crc_payload message = contains crc_messages message
