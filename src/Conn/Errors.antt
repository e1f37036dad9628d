-- ===== src/Conn/Errors.antt =====
-- The codes of libncftp/ncftp_errno.h that the modelled functions return.
use libncftp.Base.{ℤ, pos, neg}

abbrev pub k_no_err : ℤ
k_no_err = pos 0

abbrev pub k_err_connect_retryable_err : ℤ
k_err_connect_retryable_err = neg 119

abbrev pub k_err_connect_refused : ℤ
k_err_connect_refused = neg 120

abbrev pub k_err_bad_transfer_type : ℤ
k_err_bad_transfer_type = neg 121

abbrev pub k_err_invalid_dir_param : ℤ
k_err_invalid_dir_param = neg 122

abbrev pub k_err_malloc_failed : ℤ
k_err_malloc_failed = neg 123

abbrev pub k_err_pwd_failed : ℤ
k_err_pwd_failed = neg 124

abbrev pub k_err_cwd_failed : ℤ
k_err_cwd_failed = neg 125

abbrev pub k_err_rmd_failed : ℤ
k_err_rmd_failed = neg 126

abbrev pub k_err_socket_write_failed : ℤ
k_err_socket_write_failed = neg 135

abbrev pub k_err_bad_magic : ℤ
k_err_bad_magic = neg 138

abbrev pub k_err_bad_parameter : ℤ
k_err_bad_parameter = neg 139

abbrev pub k_err_mkd_failed : ℤ
k_err_mkd_failed = neg 140

abbrev pub k_err_cannot_go_to_prev_dir : ℤ
k_err_cannot_go_to_prev_dir = neg 141

abbrev pub k_err_chmod_failed : ℤ
k_err_chmod_failed = neg 142

abbrev pub k_err_umask_failed : ℤ
k_err_umask_failed = neg 143

abbrev pub k_err_dele_failed : ℤ
k_err_dele_failed = neg 144

abbrev pub k_err_size_failed : ℤ
k_err_size_failed = neg 145

abbrev pub k_err_mdtm_failed : ℤ
k_err_mdtm_failed = neg 146

abbrev pub k_err_type_failed : ℤ
k_err_type_failed = neg 147

abbrev pub k_err_size_not_available : ℤ
k_err_size_not_available = neg 148

abbrev pub k_err_mdtm_not_available : ℤ
k_err_mdtm_not_available = neg 149

abbrev pub k_err_rename_failed : ℤ
k_err_rename_failed = neg 150

abbrev pub k_err_glob_failed : ℤ
k_err_glob_failed = neg 151

abbrev pub k_err_host_disconnected_during_login : ℤ
k_err_host_disconnected_during_login = neg 153

abbrev pub k_err_bad_remote_user : ℤ
k_err_bad_remote_user = neg 154

abbrev pub k_err_bad_remote_user_or_password : ℤ
k_err_bad_remote_user_or_password = neg 155

abbrev pub k_err_login_failed : ℤ
k_err_login_failed = neg 156

abbrev pub k_err_invalid_reply_from_server : ℤ
k_err_invalid_reply_from_server = neg 157

abbrev pub k_err_remote_host_closed_connection : ℤ
k_err_remote_host_closed_connection = neg 158

abbrev pub k_err_not_connected : ℤ
k_err_not_connected = neg 159

abbrev pub k_err_utime_failed : ℤ
k_err_utime_failed = neg 164

abbrev pub k_err_utime_not_available : ℤ
k_err_utime_not_available = neg 165

abbrev pub k_err_help_failed : ℤ
k_err_help_failed = neg 166

abbrev pub k_err_symlink_failed : ℤ
k_err_symlink_failed = neg 170

abbrev pub k_err_glob_no_match : ℤ
k_err_glob_no_match = neg 172

abbrev pub k_err_mlst_failed : ℤ
k_err_mlst_failed = neg 180

abbrev pub k_err_invalid_mlst_response : ℤ
k_err_invalid_mlst_response = neg 181

abbrev pub k_err_mlst_not_available : ℤ
k_err_mlst_not_available = neg 182

abbrev pub k_err_stat_failed : ℤ
k_err_stat_failed = neg 184

abbrev pub k_err_stat_with_file_not_available : ℤ
k_err_stat_with_file_not_available = neg 185

abbrev pub k_err_nlst_failed : ℤ
k_err_nlst_failed = neg 186

abbrev pub k_err_nlst_with_file_not_available : ℤ
k_err_nlst_with_file_not_available = neg 187

abbrev pub k_err_no_such_file_or_directory : ℤ
k_err_no_such_file_or_directory = neg 188

abbrev pub k_err_cant_tell_if_file_exists : ℤ
k_err_cant_tell_if_file_exists = neg 189

abbrev pub k_err_file_exists_but_cannot_determine_type : ℤ
k_err_file_exists_but_cannot_determine_type = neg 190

abbrev pub k_err_control_timed_out : ℤ
k_err_control_timed_out = neg 193

abbrev pub k_err_login_host_misc_err : ℤ
k_err_login_host_misc_err = neg 203

abbrev pub k_err_path_too_long : ℤ
k_err_path_too_long = neg 207

abbrev pub k_err_connect_misc_err : ℤ
k_err_connect_misc_err = neg 118

abbrev pub k_err_no_host_specified : ℤ
k_err_no_host_specified = neg 196

abbrev pub k_err_open_host_misc_err : ℤ
k_err_open_host_misc_err = neg 202

abbrev pub k_err_host_unknown : ℤ
k_err_host_unknown = neg 105

abbrev pub k_err_new_stream_socket : ℤ
k_err_new_stream_socket = neg 106

abbrev pub k_err_bind_ctrl_socket : ℤ
k_err_bind_ctrl_socket = neg 206

abbrev pub k_err_get_sock_name : ℤ
k_err_get_sock_name = neg 110

abbrev pub k_err_fdopen_w : ℤ
k_err_fdopen_w = neg 109

abbrev pub k_err_set_start_point : ℤ
k_err_set_start_point = neg 117

abbrev pub k_err_port_failed : ℤ
k_err_port_failed = neg 162

abbrev pub k_err_pasv_failed : ℤ
k_err_pasv_failed = neg 163
